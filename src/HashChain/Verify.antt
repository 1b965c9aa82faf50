-- ===== src/HashChain/Verify.antt =====
-- Verification of the stored events of an entity, as the comments of
-- internal/plugin/hashchain/hashchain.go describe it: each link is computed again from the stored
-- event and the hash before it.
use letopis.Prelude.{
  ℕ, ◌≡◌, refl, sym, Str, str_eq, str_eq→eq, Bool, true, false, ◌&&◌, Option, none, some, List, [],
  ◌∷◌, ◌++◌, arith,
}
use letopis.Json.{Value}
use letopis.Domain.Event.{Event, Integrity}
use letopis.HashChain.Link.{canonical, seal, seal_text, hash}

-- The computed link is there and is the stored one.
abbrev pub matches : Option Str → Str → Bool
matches none stored = false
matches (some h) stored = str_eq h stored

abbrev pub stored_hash : Option Integrity → Str
stored_hash none = []
stored_hash (some i) = i.hash

-- The events in the reverse order, before `done`.
abbrev pub reverse_onto {ℓ} : {A : Type ℓ} → List A → List A → List A
reverse_onto [] done = done
reverse_onto (x ∷ xs) done = reverse_onto xs (x ∷ done)

module _ (sha256 : Str → Str) (json_text : Value → Option Str) (format_time : ℕ → Str) where
  abbrev pub links : Str → Event → Option Integrity → Bool
  links prev ev none = false
  links prev ev (some i) =
      str_eq i.prev_hash prev && matches (hash sha256 json_text format_time prev ev) i.hash

  -- Every event is linked to the hash before it, and the first one to `prev`.
  unfoldable pub verify : Str → List Event → Bool
  verify prev [] = true
  verify prev (ev ∷ evs) = links prev ev ev.integrity && verify (stored_hash ev.integrity) evs

  -- the hash of the last event
  unfoldable pub last_hash : Str → List Event → Str
  last_hash prev [] = prev
  last_hash prev (ev ∷ evs) = last_hash (stored_hash ev.integrity) evs

  -- A stored hash seals the text of its event.
  abbrev pub IsSealed : Str → Event → Str → Type 0
  IsSealed prev ev h =
      (text : Str) × (canonical sha256 json_text format_time ev ≡ some text)
      × (h ≡ seal sha256 json_text format_time prev text)

  -- The events, the newest first, are sealed one after the other, from `start` up to a hash.
  abbrev pub IsChain : Str → List Event → Str → Type 0
  IsChain start [] h = h ≡ start
  IsChain start (ev ∷ older) h = (prev : Str) × IsChain start older prev × IsSealed prev ev h

  matches-seal :
      (prev : Str) (o : Option Str) (stored : Str)
      → matches (seal_text sha256 json_text format_time prev o) stored ≡ true
      → (text : Str) × (o ≡ some text) × (stored ≡ seal sha256 json_text format_time prev text)
  matches-seal prev none stored h = absurd (ground arith)
  matches-seal prev (some text) stored h =
      (text, refl, sym (str_eq→eq (seal sha256 json_text format_time prev text) stored h))

  links-IsSealed :
      (prev : Str) (ev : Event) (o : Option Integrity)
      → links prev ev o ≡ true
      → IsSealed prev ev (stored_hash o)
  unfolding hash
  links-IsSealed prev ev none h = absurd (ground arith)
  links-IsSealed prev ev (some i) h =
      matches-seal prev (canonical sha256 json_text format_time ev) i.hash (ground arith)

  pub verify-IsChain :
      (start prev : Str) (evs done : List Event)
      → verify prev evs ≡ true
      → IsChain start done prev
      → IsChain start (reverse_onto evs done) (last_hash prev evs)
  unfolding verify last_hash
  verify-IsChain start prev [] done h c = c
  verify-IsChain start prev (ev ∷ evs) done h c =
      verify-IsChain start (stored_hash ev.integrity) evs (ev ∷ done) (ground arith)
        (prev, c, links-IsSealed prev ev ev.integrity (ground arith))

  pub verify-append :
      (prev : Str) (evs : List Event) (ev : Event)
      → verify prev (evs ++ ev ∷ [])
        ≡ (verify prev evs && links (last_hash prev evs) ev ev.integrity)
  unfolding verify last_hash
  verify-append prev [] ev = ground arith
  verify-append prev (x ∷ evs) ev = ground (arith, verify-append (stored_hash x.integrity) evs ev)
