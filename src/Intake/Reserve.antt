-- ===== src/Intake/Reserve.antt =====
-- internal/domain/idempotency.go and internal/storage/redis/idempotency_store.go: the keys of
-- accepted event ids. The map holds the keys that have not expired.
use letopis.Prelude.{
  ℕ, zero, suc, Str, str_eq, codes, ◌++◌, Bool, true, false, Option, none, some, List, [], ◌∷◌,
  if◌then◌else◌,
}

pub record IdempotencyRecord : Type 0 where
  pub ticket_id : Str
  pub status_code : ℕ

abbrev pub Keys : Type 0
Keys = Str → Option IdempotencyRecord

-- What the Redis calls of one round do: SET NX fails, GET fails, the key expires between the two,
-- or all is well.
pub data Round : Type 0 where
  works set_fails get_fails expires : Round

-- what Reserve returns
pub data Reservation : Type 0 where
  reserved : Reservation
  held : IdempotencyRecord → Reservation
  unavailable : Reservation

abbrev pub claim : Keys → Str → Option IdempotencyRecord → Keys
claim keys k r j = if str_eq j k then r else keys j

abbrev pub reserve_max_tries : ℕ
reserve_max_tries = 3

-- the key of a tenant's database
abbrev pub redis_key : Str → Str → Str
redis_key db logical = codes "letopis:idem:" ++ (db ++ (b':' ∷ logical))

-- The rounds that a list leaves open are well.
abbrev pub first_round : List Round → Round
first_round [] = works
first_round (r ∷ rs) = r

abbrev pub later_rounds : List Round → List Round
later_rounds [] = []
later_rounds (r ∷ rs) = rs

-- a round in which another one holds the key
abbrev pub lost : Keys → IdempotencyRecord → Round → Keys × Reservation → Keys × Reservation
lost keys r works again = (keys, held r)
lost keys r set_fails again = (keys, unavailable)
lost keys r get_fails again = (keys, unavailable)
lost keys r expires again = again

-- a round in which the key is free
abbrev pub won : Keys → Str → IdempotencyRecord → Round → Keys × Reservation
won keys k rec set_fails = (keys, unavailable)
won keys k rec _ = (claim keys k (some rec), reserved)

abbrev pub round_of :
    Keys
    → Str
    → IdempotencyRecord
    → Option IdempotencyRecord
    → Round
    → Keys × Reservation
    → Keys × Reservation
round_of keys k rec none r again = won keys k rec r
round_of keys k rec (some other) r again = lost keys other r again

-- the loop of Reserve; a writer that never wins and never finds a record proceeds
unfoldable pub reserve_rounds : ℕ → List Round → Keys → Str → IdempotencyRecord → Keys × Reservation
reserve_rounds zero rs keys k rec = (keys, reserved)
reserve_rounds (suc n) rs keys k rec =
    let again = reserve_rounds n (later_rounds rs) (claim keys k none) k rec in
    round_of keys k rec (keys k) (first_round rs) again

unfoldable pub reserve : List Round → Keys → Str → IdempotencyRecord → Keys × Reservation
unfolding reserve_rounds
reserve rs keys k rec = reserve_rounds reserve_max_tries rs keys k rec

-- Release; the second argument tells whether the call fails
unfoldable pub release : Bool → Keys → Str → Keys
release true keys k = keys
release false keys k = claim keys k none
