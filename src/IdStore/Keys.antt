-- ===== src/IdStore/Keys.antt =====
-- Keys that are in the store, and what a submit that finds or misses one gets.
use go_sdk.Prelude.{
  ℕ, ◌≡◌, refl, Bool, true, false, Option, none, some, Text, text_beq, text_eq, text_beq_iff,
  lookup, insert, lookup-insert, Bool-cases, inl, inr, arith,
}
use go_sdk.IdStore.{
  Entry, Store, ok, store_key, stamp, put_at, put_if_absent, accept_at, set_accepted,
}

abbrev pub HasKey : Text → Store → Type 0
HasKey k m = (e : Entry) × (lookup k m ≡ some e)

insert-HasKey : (k j : Text) (e : Entry) (m : Store) → HasKey k m → HasKey k (insert j e m)
insert-HasKey k j e m (held, there) = elim (Bool-cases (text_beq j k)) [
  | inl same ↦ (e, ground (arith, lookup-insert j k e m))
  | inr differs ↦ (held, ground (arith, lookup-insert j k e m))
]

put_at-HasKey :
    (k j : Text) (r : Option Entry) (m : Store) (now : ℕ) (e : Entry)
    → HasKey k m
    → HasKey k (put_at j r m now e).0
unfolding put_at
put_at-HasKey k j (some existing) m now e h = h
put_at-HasKey k j none m now e h = insert-HasKey k j (stamp now e) m h

pub put_if_absent-HasKey :
    (k : Text) (done : Bool) (m : Store) (now : ℕ) (e : Entry)
    → HasKey k m
    → HasKey k (put_if_absent done m now e).0
unfolding put_if_absent
put_if_absent-HasKey k true m now e h = h
put_if_absent-HasKey k false m now e h =
    put_at-HasKey k (store_key e.principal e.key) (lookup (store_key e.principal e.key) m) m now e h

accept_at-HasKey :
    (k j : Text) (r : Option Entry) (m : Store) (accepted : Text)
    → HasKey k m
    → HasKey k (accept_at j r m accepted)
unfolding accept_at
accept_at-HasKey k j none m accepted h = h
accept_at-HasKey k j (some e) m accepted h =
    insert-HasKey k j (record e { accepted = accepted }) m h

pub set_accepted-HasKey :
    (k : Text) (done : Bool) (m : Store) (principal key accepted : Text)
    → HasKey k m
    → HasKey k (set_accepted done m principal key accepted).0
unfolding set_accepted
set_accepted-HasKey k true m principal key accepted h = h
set_accepted-HasKey k false m principal key accepted h =
    accept_at-HasKey k (store_key principal key) (lookup (store_key principal key) m) m accepted h

-- A key that is there is found, with its entry.
pub put_if_absent-present :
    (m : Store) (now : ℕ) (e held : Entry)
    → lookup (store_key e.principal e.key) m ≡ some held
    → put_if_absent false m now e ≡ (m, ok (held, false))
unfolding put_if_absent
put_if_absent-present m now e held there = rw there (unfold put_at in refl)

-- A key that is not there is entered.
pub put_if_absent-absent :
    (m : Store) (now : ℕ) (e : Entry)
    → lookup (store_key e.principal e.key) m ≡ none
    → put_if_absent false m now e
      ≡ (insert (store_key e.principal e.key) (stamp now e) m, ok (stamp now e, true))
unfolding put_if_absent
put_if_absent-absent m now e absent = rw absent (unfold put_at in refl)

put_at-there :
    (k : Text) (r : Option Entry) (m : Store) (now : ℕ) (e : Entry)
    → lookup k m ≡ r
    → HasKey k (put_at k r m now e).0
unfolding put_at
put_at-there k (some existing) m now e h = (existing, h)
put_at-there k none m now e h =
    (stamp now e, ground (arith, lookup-insert k k (stamp now e) m, text_beq_iff k k))

-- After the call the key is there.
pub put_if_absent-there :
    (m : Store) (now : ℕ) (e : Entry)
    → HasKey (store_key e.principal e.key) (put_if_absent false m now e).0
unfolding put_if_absent
put_if_absent-there m now e =
    put_at-there (store_key e.principal e.key) (lookup (store_key e.principal e.key) m) m now e refl
