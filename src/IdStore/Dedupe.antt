-- ===== src/IdStore/Dedupe.antt =====
-- internal/idstore/idstore.go: submits under the same key and under different ones, and the sweep.
use go_sdk.Prelude.{
  ℕ, ◌+◌, ◌≡◌, refl, ap, ◌≢◌, ◌⊎◌, Bool, false, [], ◌∷◌, ◌++◌, Option, none, some, arith, Text,
  text_eq, ltb, lookup, lookup-insert_self, lookup-insert_ne, append_assoc, length, keep, not,
}
use go_sdk.Strings.{has_byte}
use go_sdk.IdStore.{
  Entry, Store, store_key, ok, stamp, put_at, put_if_absent, get, sweep_loop, sweep,
}

-- Keys of principals without a zero byte meet only if the principals and the keys are the same.
pub store_key-injective :
    (p q k j : Text)
    → has_byte 0 p ≡ false
    → has_byte 0 q ≡ false
    → store_key p k ≡ store_key q j
    → (p ≡ q) × (k ≡ j)
unfolding store_key has_byte
store_key-injective [] [] k j h i e = (refl, ground arith)
store_key-injective [] (y ∷ q) k j h i e = absurd (ground arith)
store_key-injective (x ∷ p) [] k j h i e = absurd (ground arith)
store_key-injective (x ∷ p) (y ∷ q) k j h i e =
    let rest = store_key-injective p q k j (ground arith) (ground arith) (ground arith) in
    ground (arith, rest)

put_at-first :
    (k : Text) (found : Option Entry) (m : Store) (now : ℕ) (e : Entry)
    → lookup k m ≡ found
    → lookup k (put_at k found m now e).0 ≡ some (put_at k found m now e).1
unfolding put_at
put_at-first k (some existing) m now e h = h
put_at-first k none m now e h = lookup-insert_self k (stamp now e) m

-- A submit that follows another under the same principal and key gets the entry that the first one
-- got, is not fresh, and leaves the store as it is.
pub put_if_absent_twice :
    (m : Store) (now later : ℕ) (e e' : Entry)
    → e.principal ≡ e'.principal
    → e.key ≡ e'.key
    → (r : Store × Entry × Bool) × (put_if_absent false m now e ≡ (r.0, ok (r.1, r.2)))
      × (put_if_absent false r.0 later e' ≡ (r.0, ok (r.1, false)))
unfolding put_if_absent
put_if_absent_twice m now later e e' p k =
    let key : Text = store_key e.principal e.key in
    let r : Store × Entry × Bool = put_at key (lookup key m) m now e in
    let first = put_at-first key (lookup key m) m now e refl in
    let same : key ≡ store_key e'.principal e'.key = cc in (r, refl, rw (← same) (rw first refl))

put_at-other :
    (k j : Text) (found : Option Entry) (m : Store) (now : ℕ) (e : Entry)
    → k ≢ j
    → lookup j (put_at k found m now e).0 ≡ lookup j m
unfolding put_at
put_at-other k j (some existing) m now e ne = refl
put_at-other k j none m now e ne = lookup-insert_ne k j (stamp now e) m ne

-- A submit under another principal without zero bytes, or under another key of it, does not change
-- what is stored for this one.
pub get-put_if_absent :
    (m : Store) (now : ℕ) (e : Entry) (principal key : Text)
    → has_byte 0 principal ≡ false
    → has_byte 0 e.principal ≡ false
    → (e.principal ≢ principal) ⊎ (e.key ≢ key)
    → get false (put_if_absent false m now e).0 principal key ≡ get false m principal key
unfolding put_if_absent get
get-put_if_absent m now e principal key hp he ne = ap ok (
    put_at-other (store_key e.principal e.key) (store_key principal key) _ m now e
      (λ q. let both = store_key-injective e.principal principal e.key key he hp q in ground arith))

-- Two principals of which one holds a zero byte can share a stored key.
pub store_key_clash : (p q k : Text) → store_key (p ++ 0 ∷ q) k ≡ store_key p (q ++ 0 ∷ k)
unfolding store_key
store_key_clash p q k = append_assoc p (0 ∷ q) (0 ∷ k)

abbrev pub is_young : ℕ → Text × Entry → Bool
is_young older_than kv = not (ltb kv.1.created_at older_than)

sweep_loop-keep :
    (older_than : ℕ) (m : Store)
    → ((sweep_loop older_than m).0 ≡ keep (is_young older_than) m)
      × ((sweep_loop older_than m).1 + length (keep (is_young older_than) m) ≡ length m)
unfolding sweep_loop
sweep_loop-keep older_than [] = (refl, omega arith)
sweep_loop-keep older_than ((k, e) ∷ m) =
    let rest = sweep_loop-keep older_than m in ground (arith, rest)

-- A sweep keeps exactly the entries that were not created before the cutoff, in their order, and
-- reports how many it removed.
pub sweep-keep :
    (m : Store) (older_than : ℕ)
    → (n : ℕ) × (sweep false m older_than ≡ (keep (is_young older_than) m, ok n))
      × (n + length (keep (is_young older_than) m) ≡ length m)
unfolding sweep
sweep-keep m older_than =
    let r : Store × ℕ = sweep_loop older_than m in
    let (kept, count) = sweep_loop-keep older_than m in (r.1, rw kept refl, count)
