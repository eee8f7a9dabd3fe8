-- ===== src/Services/Redis.antt =====
-- Redis as backend/app/queue.py uses it: keys with an optional expiry. A key is the text that the
-- code builds, split into its parts; a value is the number that it prints.
use Prim.Native.String.{String}
use shikomi.Prelude.{
  ℕ, ◌+◌, ◌≤◌, ◌≡◌, Bool, true, false, ◌&&◌, ◌==◌, not, is_some, ltb, Option, none, some,
  if◌then◌else◌, arith,
}
use shikomi.Prelude.Text.{str_eq, eq_iff}

pub data Key : Type 0 where
  inflight : ℕ → ℕ → Key
  ratelimit : String → ℕ → ℕ → Key
  authfail authlock alert : String → Key
  percentile : ℕ → String → ℕ → Key

abbrev pub key_eq : Key → Key → Bool
key_eq (inflight u p) (inflight v q) = u == v && p == q
key_eq (ratelimit a u b) (ratelimit c v d) = str_eq a c && (u == v && b == d)
key_eq (authfail a) (authfail b) = str_eq a b
key_eq (authlock a) (authlock b) = str_eq a b
key_eq (alert a) (alert b) = str_eq a b
key_eq (percentile p l r) (percentile q m t) = p == q && (str_eq l m && r == t)
key_eq _ _ = false

pub key_eq_refl : (k : Key) → key_eq k k ≡ true
key_eq_refl (inflight u p) = ground arith
key_eq_refl (ratelimit a u b) = ground (arith, eq_iff a a)
key_eq_refl (authfail a) = ground (arith, eq_iff a a)
key_eq_refl (authlock a) = ground (arith, eq_iff a a)
key_eq_refl (alert a) = ground (arith, eq_iff a a)
key_eq_refl (percentile p l r) = ground (arith, eq_iff l l)

pub record Entry : Type 0 where
  pub value : ℕ
  -- the time at which the key expires; `none` is a key with no expiry
  pub expires : Option ℕ

-- An entry as it is read at a time: gone from its expiry on.
abbrev pub alive : ℕ → Entry → Option Entry
alive now e = elim e.expires [ none ↦ some e | some t ↦ if ltb now t then some e else none ]

abbrev pub read : ℕ → Option Entry → Option Entry
read now none = none
read now (some e) = alive now e

-- The count that `INCR` leaves and returns; a missing key counts as 0 and gets no expiry.
abbrev pub increased : Option Entry → Entry
increased none = record { value = 1; expires = none }
increased (some e) = record e { value = e.value + 1 }

abbrev pub with_expiry : ℕ → Option Entry → Option Entry
with_expiry t none = none
with_expiry t (some e) = some (record e { expires = some t })

-- Each operation is one command at a time `now`, in seconds.
pub record Redis : Type 1 where
  pub Store : Type 0
  -- what a key holds at a time
  pub entry : Store → ℕ → Key → Option Entry
  -- `SET key value EX ttl`
  pub set_ex : ℕ → Key → ℕ → ℕ → Store → Store
  -- `SET key value NX EX ttl`, and whether it was set
  pub set_nx_ex : ℕ → Key → ℕ → ℕ → Store → Bool × Store
  -- `DEL key`
  pub delete : ℕ → Key → Store → Store
  -- `INCR key`: the new store; the count is read from it
  pub incr : ℕ → Key → Store → Store
  -- `EXPIRE key ttl`
  pub expire : ℕ → Key → ℕ → Store → Store
  -- from a time on the clock only lets keys expire
  pub entry-later :
      (s : Store) (now t : ℕ) (k : Key) → now ≤ t → entry s t k ≡ read t (entry s now k)
  pub entry-set_ex :
      (s : Store) (now v ttl : ℕ) (k j : Key)
      → entry (set_ex now k v ttl s) now j ≡ (
          if key_eq k j
          then read now (some (record { value = v; expires = some (now + ttl) }))
          else entry s now j)
  pub set_nx_ex_lem :
      (s : Store) (now v ttl : ℕ) (k : Key)
      → (set_nx_ex now k v ttl s).0 ≡ not (is_some (entry s now k))
  pub entry-set_nx_ex :
      (s : Store) (now v ttl : ℕ) (k j : Key)
      → entry (set_nx_ex now k v ttl s).1 now j
        ≡ (if is_some (entry s now k) then entry s now j else entry (set_ex now k v ttl s) now j)
  pub entry-delete :
      (s : Store) (now : ℕ) (k j : Key)
      → entry (delete now k s) now j ≡ (if key_eq k j then none else entry s now j)
  pub entry-incr :
      (s : Store) (now : ℕ) (k j : Key)
      → entry (incr now k s) now j
        ≡ (if key_eq k j then some (increased (entry s now k)) else entry s now j)
  pub entry-expire :
      (s : Store) (now ttl : ℕ) (k j : Key)
      → entry (expire now k ttl s) now j
        ≡ (if key_eq k j then read now (with_expiry (now + ttl) (entry s now k)) else entry s now j)
