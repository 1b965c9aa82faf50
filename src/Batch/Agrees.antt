-- ===== src/Batch/Agrees.antt =====
-- The loop of batchCollection keeps pace with single writes: what it has gathered is what the
-- single writes have stored.
use letopis.Prelude.{
  ℕ, suc, ◌≡◌, refl, sym, ap, ◌∙◌, Str, str_eq, str_eq→eq, Bool, true, false, Option, none, some,
  List, [], ◌∷◌, ◌++◌, append_assoc, length, leb, Bool-cases, inl, inr, arith,
}
use letopis.Json.{Fields}
use letopis.Json.Object.{str_eq_sym}
use letopis.Domain.Event.{Event, CurrentState, Snapshot}
use letopis.Domain.Collection.{CollectionConfig}
use letopis.Service.Ingest.{
  Store, Faults, WriteError, history, is_duplicate, upsert, build_snapshot, new_current,
  after_store,
}
use letopis.Service.Command.{IngestCommand}
use letopis.Append.Writers.{has_version}
use letopis.Append.Versions.{has_version-count}
use letopis.Batch.Fold.{Fold, assign, contains, fail, gather}
use letopis.Batch.Flush.{insert_many, build_all}
use letopis.Batch.Order.{enlisted}
use letopis.Batch.Insert.{insert_many-append, IsVersioned, IsVersioned-append}

-- All calls of the store work.
abbrev pub fine : Faults
fine = record {
  load_fails = false;
  last_event_fails = false;
  append_fails = false;
  upsert_fails = false;
  snapshot_fails = false;
}

-- the state that the loop will refresh, or else the one in the store
abbrev pub final_or : Option CurrentState → Option CurrentState → Option CurrentState
final_or none cur = cur
final_or (some c) cur = some c

-- `st` is the store before the batch, `s` the one after single writes of the same items.
pub record Agrees (cfg : CollectionConfig) (st : Store) (f : Fold) (s : Store) : Type 0 where
  pub events : s.events ≡ st.events ++ f.events
  pub evaluated : s.evaluated ≡ st.evaluated ++ f.events
  pub snapshots : s.snapshots ≡ build_all false cfg f.snaps st.snapshots
  pub current : (e : Str) → s.current e ≡ final_or (f.finals e) (st.current e)
  pub running : (e : Str) (c : Option CurrentState) → f.running e ≡ some c → c ≡ s.current e
  pub idle : (e : Str) → f.running e ≡ none → f.finals e ≡ none
  pub in_step : IsVersioned s.current s.events
  pub landed : insert_many st.events f.events ≡ (s.events, true)
  pub quiet : f.events ≡ [] → (f.snaps ≡ []) × ((e : Str) → f.finals e ≡ none)
  pub keyed : (e : Str) (c : CurrentState) → f.finals e ≡ some c → c.entity_id ≡ e
  pub ordered : (e : Str) → contains e f.final_order ≡ false → f.finals e ≡ none

pub fail-Agrees :
    (cfg : CollectionConfig) (st : Store) (f : Fold) (s : Store) (k : ℕ) (e : WriteError)
    → Agrees cfg st f s
    → Agrees cfg st (fail f k e) s
fail-Agrees cfg st f s k e h = record {
  events = h.events;
  evaluated = h.evaluated;
  snapshots = h.snapshots;
  current = h.current;
  running = h.running;
  idle = h.idle;
  in_step = h.in_step;
  landed = h.landed;
  quiet = h.quiet;
  keyed = h.keyed;
  ordered = h.ordered;
}

-- The first use of an entity loads what the single writes see.
pub loaded-Agrees :
    (cfg : CollectionConfig) (st : Store) (f : Fold) (s : Store) (e : Str)
    (last : Str → Option Event)
    → f.running e ≡ none
    → Agrees cfg st f s
    → (st.current e ≡ s.current e)
      × Agrees cfg st
          (record f { running = assign e (some (st.current e)) f.running; last = last })
          s
loaded-Agrees cfg st f s e last new h =
    let same : st.current e ≡ s.current e =
      ap (λ o. final_or o (st.current e)) (sym (h.idle e new)) ∙ sym (h.current e) in
    (
      same,
      record {
        events = h.events;
        evaluated = h.evaluated;
        snapshots = h.snapshots;
        current = h.current;
        running = λ j c r. elim (Bool-cases (str_eq j e)) [
          | inl here ↦
              let is : some c ≡ some (st.current e) = sym r ∙ rw here refl in
              ap (λ o. elim o [ none ↦ c | some y ↦ y ]) is
              ∙ same
              ∙ ap s.current (sym (str_eq→eq j e here))
          | inr other ↦
              let was : assign e (some (st.current e)) f.running j ≡ f.running j = rw other refl in
              h.running j c (sym was ∙ r)
        ];
        idle = λ j r. elim (Bool-cases (str_eq j e)) [
          | inl here ↦ absurd (ground (arith, here, r))
          | inr other ↦
              let was : assign e (some (st.current e)) f.running j ≡ f.running j = rw other refl in
              h.idle j (sym was ∙ r)
        ];
        in_step = h.in_step;
        landed = h.landed;
        quiet = h.quiet;
        keyed = h.keyed;
        ordered = h.ordered;
      },
    )

build_all-append :
    (cfg : CollectionConfig) (sns xs : List Snapshot) (sn : Snapshot)
    → build_all false cfg (sns ++ sn ∷ []) xs
      ≡ build_snapshot false cfg sn (build_all false cfg sns xs)
unfolding build_all
build_all-append cfg [] xs sn = refl
build_all-append cfg (x ∷ sns) xs sn = build_all-append cfg sns (build_snapshot false cfg x xs) sn

module _ (cfg : CollectionConfig) (st : Store) (f : Fold) (s : Store) (h : Agrees cfg st f s)
    (k : ℕ) (cmd : IngestCommand) (has_pre : Bool) (ev : Event) (x : Fields) (deleted : Bool)
    (own : ev.entity_id ≡ cmd.entity_id)
    (next : ev.version ≡ suc (length (history cmd.entity_id s.events)))
    (fresh : is_duplicate ev.event_id s.events ≡ false) where
  abbrev e : Str
  e = cmd.entity_id

  occupied : (evs : List Event) → ¬ (evs ++ ev ∷ [] ≡ [])
  occupied [] r = ground (arith, r)
  occupied (y ∷ evs) r = ground (arith, r)

  abbrev refreshed : Store
  refreshed = record s {
    events = s.events ++ ev ∷ [];
    current = upsert s.current (new_current cmd ev x deleted);
  }

  abbrev stored : Store
  stored = after_store fine cfg refreshed ev x deleted

  abbrev f' : Fold
  f' = gather f k e has_pre ev x deleted

  free : has_version ev.entity_id ev.version s.events ≡ false
  free =
      ap (λ a. has_version a ev.version s.events) own
      ∙ ap (λ v. has_version e v s.events) next
      ∙ has_version-count e (length (history e s.events)) s.events (λ j. (h.in_step j).0)
      ∙ above (length (history e s.events))
    where
      above : (n : ℕ) → leb (suc n) n ≡ false
      above n = ground arith

  hit : (j : Str) → str_eq j e ≡ true → str_eq ev.entity_id j ≡ true
  hit j a = ap (λ y. str_eq y j) own ∙ str_eq_sym e j ∙ a

  miss : (j : Str) → str_eq j e ≡ false → str_eq ev.entity_id j ≡ false
  miss j a = ap (λ y. str_eq y j) own ∙ str_eq_sym e j ∙ a

  gather-current :
      (j : Str)
      → upsert s.current (new_current cmd ev x deleted) j ≡ final_or (f'.finals j) (st.current j)
  gather-current j = elim (Bool-cases (str_eq j e)) [
    | inl here ↦ rw here refl
    | inr other ↦ rw other (h.current j)
  ]

  gather-running :
      (j : Str) (c : Option CurrentState)
      → f'.running j ≡ some c
      → c ≡ upsert s.current (new_current cmd ev x deleted) j
  gather-running j c r = elim (Bool-cases (str_eq j e)) [
    | inl here ↦
        let is : some c ≡ some (some (new_current cmd ev x deleted)) = sym r ∙ rw here refl in
        rw here (ap (λ o. elim o [ none ↦ c | some y ↦ y ]) is)
    | inr other ↦
        let was : f'.running j ≡ f.running j = rw other refl in
        rw other (h.running j c (sym was ∙ r))
  ]

  gather-idle : (j : Str) → f'.running j ≡ none → f'.finals j ≡ none
  gather-idle j r = elim (Bool-cases (str_eq j e)) [
    | inl here ↦ absurd (ground (arith, here, r))
    | inr other ↦
        let was : f'.running j ≡ f.running j = rw other refl in rw other (h.idle j (sym was ∙ r))
  ]

  gather-keyed : (j : Str) (c : CurrentState) → f'.finals j ≡ some c → c.entity_id ≡ j
  gather-keyed j c r = elim (Bool-cases (str_eq j e)) [
    | inl here ↦
        let is : some c ≡ some (new_current cmd ev x deleted) = sym r ∙ rw here refl in
        ap (λ o. elim o [ none ↦ e | some y ↦ y.entity_id ]) is ∙ sym (str_eq→eq j e here)
    | inr other ↦ let was : f'.finals j ≡ f.finals j = rw other refl in h.keyed j c (sym was ∙ r)
  ]

  gather-ordered : (j : Str) → contains j f'.final_order ≡ false → f'.finals j ≡ none
  gather-ordered j r = let out = enlisted j e f.final_order r in rw out.0 (h.ordered j out.1)

  gather-snapshots : stored.snapshots ≡ build_all false cfg f'.snaps st.snapshots
  unfolding after_store
  gather-snapshots = rw own (rw h.snapshots (rw (build_all-append cfg f.snaps st.snapshots _)))

  pub gather-Agrees : Agrees cfg st f' stored
  unfolding after_store
  gather-Agrees = record {
    events = rw h.events (append_assoc st.events f.events (ev ∷ []));
    evaluated = rw h.evaluated (append_assoc st.evaluated f.events (ev ∷ []));
    snapshots = gather-snapshots;
    current = gather-current;
    running = gather-running;
    idle = gather-idle;
    in_step =
        IsVersioned-append s.current s.events ev (new_current cmd ev x deleted) h.in_step own next
          refl;
    landed = insert_many-append st.events f.events s.events ev h.landed free fresh;
    quiet = λ none_yet. absurd (occupied f.events none_yet);
    keyed = gather-keyed;
    ordered = gather-ordered;
  }
