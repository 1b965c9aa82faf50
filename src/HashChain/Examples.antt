-- ===== src/HashChain/Examples.antt =====
-- Tests of the hash chain with a digest that keeps the last bytes of a text, and its theorems at
-- concrete writes.
use letopis.Prelude.{
  ℕ, zero, suc, ◌≡◌, ◌⊎◌, refl, Str, str_eq, codes, true, Option, some, List, [], ◌∷◌, map, length,
  arith,
}
use letopis.Json.{Value, end}
use letopis.Domain.Event.{EntityOp, Event}
use letopis.Domain.Collection.{CollectionConfig, closed}
use letopis.Service.Command.{Kind}
use letopis.Service.Ingest.{history}
use letopis.Service.History.{Write, empty_store, writes}
use letopis.Service.Sample.{format_small, config, command, no_faults, deal}
use letopis.HashChain.Link.{canonical, genesis, hash_chain, hex}
use letopis.HashChain.Verify.{verify, reverse_onto}
use letopis.HashChain.Tamper.{Collision, verify-last_hash}
use letopis.HashChain.Writes.{AreChained, writes-verify}

abbrev pad : ℕ → Str → Str
pad zero xs = []
pad (suc n) [] = 0 ∷ pad n []
pad (suc n) (x ∷ xs) = x ∷ pad n xs

length-pad : (n : ℕ) (xs : Str) → length (pad n xs) ≡ n
length-pad zero xs = refl
length-pad (suc n) [] = omega (arith, length-pad n [])
length-pad (suc n) (x ∷ xs) = omega (arith, length-pad n xs)

abbrev digest : Str → Str
digest xs = pad 32 (reverse_onto xs [])

abbrev json_text : Value → Option Str
json_text v = some (codes "{}")

abbrev format_time : ℕ → Str
format_time t = t ∷ []

abbrev chained : CollectionConfig
chained = record config {
  plugins = (codes "hash_chain", record { enabled = true; fail_mode = closed; params = end }) ∷ [];
}

abbrev chained_writes : List Write
chained_writes =
    record {
      now = 1;
      faults = no_faults;
      config = some chained;
      kind = Kind.state;
      cmd = command EntityOp.unset deal;
    }
    ∷ record {
      now = 2;
      faults = no_faults;
      config = some chained;
      kind = Kind.delete;
      cmd = command EntityOp.delete end;
    }
    ∷ []

abbrev deals : Str
deals = codes "crm.deals"

abbrev stored : List Event
stored =
    history (codes "deal-1")
      (writes format_small (hash_chain digest json_text format_time ∷ []) empty_store
        chained_writes).events

hex_runs : hex (0 ∷ 171 ∷ 255 ∷ []) ≡ codes "00abff"
unfolding hex
hex_runs = refl

chained_writes-AreChained : AreChained deals chained_writes
unfolding str_eq
chained_writes-AreChained = (refl, (refl, refl), (refl, (refl, refl), tt))

writes-verify_example :
    verify digest json_text format_time (genesis digest json_text format_time deals) stored ≡ true
writes-verify_example =
    writes-verify digest json_text format_time format_small deals [] chained_writes (codes "deal-1")
      chained_writes-AreChained

verify-last_hash_example :
    (map (λ ev. canonical digest json_text format_time ev) stored
      ≡ map (λ ev. canonical digest json_text format_time ev) stored)
    ⊎ Collision digest
verify-last_hash_example =
    verify-last_hash digest json_text format_time (λ x. length-pad 32 (reverse_onto x [])) deals
      stored stored
      (writes-verify digest json_text format_time format_small deals [] chained_writes
        (codes "deal-1") chained_writes-AreChained)
      (writes-verify digest json_text format_time format_small deals [] chained_writes
        (codes "deal-1") chained_writes-AreChained)
      refl
