-- ===== src/Queue/Shard.antt =====
-- internal/queue/queue.go: Message, Delivery and Shard, which hashes a key by FNV-1a (hash/fnv).
use Prim.Native.Nat.{bit_xor, ◌≤◌}
use letopis.Prelude.{
  ℕ, ◌*◌, ◌%◌, ◌^◌, ◌≡◌, ◌<◌, refl, Str, codes, List, [], ◌∷◌, if◌then◌else◌, leb, arith,
}

pub record Message : Type 0 where
  pub key : Str
  pub payload : Str
  pub attrs : List (Str × Str)

-- The id is the decimal text of a counter; it is kept as the number.
pub record Delivery : Type 0 where
  pub message : Message
  pub id : ℕ
  pub shard : ℕ
  pub deliveries : ℕ

-- h.Write of New32a, from the hash so far
unfoldable pub fnv : ℕ → Str → ℕ
fnv h [] = h
fnv h (c ∷ cs) = fnv (bit_xor h c * 16777619 % 2 ^ 32) cs

unfoldable pub shard : Str → ℕ → ℕ
unfolding fnv
shard key n = if leb n 1 then 0 else fnv 2166136261 key % n

fnv_runs : fnv 2166136261 (codes "a") ≡ 3826002220
unfolding fnv
fnv_runs = refl

pub shard-bound : (key : Str) (n : ℕ) → 1 ≤ n → shard key n < n
unfolding shard
shard-bound key n h = ground arith
