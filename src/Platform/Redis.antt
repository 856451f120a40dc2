-- ===== src/Platform/Redis.antt =====
-- The Redis server, over the keys and the values that a component uses: commands are atomic, and a
-- read finds what was last written. Expiry between two commands is a change of the state from
-- outside.
use why_combinator.Prelude.{
  ℕ, ◌<◌, ◌≡◌, refl, Bool, true, false, Option, none, some, if◌then◌else◌, HasEq,
}

pub record Redis (Key Value : Type 0) (key : HasEq Key) : Type 1 where
  pub State : Type 0
  -- GET
  pub get : State → Key → Option Value
  -- SET, SET with EX, EXPIRE, PEXPIRE and DEL
  pub set : State → Key → Value → State
  pub set_ex : State → Key → Value → ℕ → State
  pub expire : State → Key → ℕ → State
  pub pexpire : State → Key → ℕ → State
  pub delete : State → Key → State
  pub get-set :
      (s : State) (k : Key) (v : Value) (j : Key)
      → get (set s k v) j ≡ (if key.same k j then some v else get s j)
  pub get-set_ex :
      (s : State) (k : Key) (v : Value) (ttl : ℕ) (j : Key)
      → 0 < ttl
      → get (set_ex s k v ttl) j ≡ (if key.same k j then some v else get s j)
  pub get-expire :
      (s : State) (k : Key) (ttl : ℕ) (j : Key) → 0 < ttl → get (expire s k ttl) j ≡ get s j
  pub get-pexpire :
      (s : State) (k : Key) (ttl : ℕ) (j : Key) → 0 < ttl → get (pexpire s k ttl) j ≡ get s j
  pub get-delete :
      (s : State) (k j : Key) → get (delete s k) j ≡ (if key.same k j then none else get s j)

module _ {Key Value : Type 0} {key : HasEq Key} (redis : Redis Key Value key) where
  -- SET with NX and EX: whether it wrote, and the state behind it.
  unfoldable pub set_nx_ex : redis.State → Key → Value → ℕ → Bool × redis.State
  set_nx_ex s k v ttl = elim (redis.get s k) [
    | none ↦ (true, redis.set_ex s k v ttl)
    | some _ ↦ (false, s)
  ]

  -- SETNX
  unfoldable pub set_nx : redis.State → Key → Value → Bool × redis.State
  set_nx s k v = elim (redis.get s k) [ none ↦ (true, redis.set s k v) | some _ ↦ (false, s) ]

-- A server in which nothing expires.
abbrev pub in_memory : (Key Value : Type 0) (key : HasEq Key) → Redis Key Value key
in_memory Key Value key = record {
  State = Key → Option Value;
  get = λ s j. s j;
  set = λ s k v j. if key.same k j then some v else s j;
  set_ex = λ s k v ttl j. if key.same k j then some v else s j;
  expire = λ s k ttl. s;
  pexpire = λ s k ttl. s;
  delete = λ s k j. if key.same k j then none else s j;
  get-set = λ s k v j. refl;
  get-set_ex = λ s k v ttl j pos. refl;
  get-expire = λ s k ttl j pos. refl;
  get-pexpire = λ s k ttl j pos. refl;
  get-delete = λ s k j. refl;
}
