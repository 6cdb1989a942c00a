-- ===== src/Base/Lru.antt =====
-- The crate `lru`, as the replay cache and the rate limiter use it: the operations are a parameter,
-- and its documentation, read off `iter`, the hypotheses. `iter` lists the most recently used
-- entry first.
use Prim.Native.Nat.{ℕ, suc, ◌-◌, ◌≤◌, ◌<◌}
use mathlib.Core.Path.{◌≡◌, refl}
use mathlib.Core.Bool.{Bool, true}
use mathlib.Core.Option.{Option, none, some}
use mathlib.Core.List.{List, [], ◌∷◌}
use fwknox.Base.Tests.{ltb, if◌then◌else◌, is_some, Option-cases}
use fwknox.Base.Lists.{length, take, get_last?, length-take}
use fwknox.Base.Equality.{PartialEq}
use fwknox.Base.Assoc.{
  lookup, erase, Distinct, lookup-erase_self, Distinct-erase, lookup-take, Distinct-take,
  length-erase, lookup-take-erase, lookup-take-take,
}
use mathlib.Core.Logic.{◌≢◌, inl, inr}
use native.Mathlib.Omega.{arith}

-- `update c k v` is `get_mut` and a write through what it returns; `evicted k c` is what
-- `push` of the key returns; its new cache is that of `put`.
pub record Lru (K V : Type 0) : Type 1 where
  pub Cache : Type 0
  pub new : ℕ → Cache
  pub cap : Cache → ℕ
  pub len : Cache → ℕ
  pub iter : Cache → List (K × V)
  pub contains : K → Cache → Bool
  pub get : K → Cache → Option V
  pub update : K → V → Cache → Cache
  pub put : K → V → Cache → Cache
  pub evicted : K → Cache → Option (K × V)
  pub pop : K → Cache → Cache
  pub clear : Cache → Cache

module _ {K V : Type 0} ⦃e : PartialEq K⦄ where
  -- An insertion: the entry moves to the front; a new one displaces the last if there is no room.
  unfoldable pub put_entry : ℕ → K → V → List (K × V) → List (K × V)
  put_entry size k v m =
      if is_some (lookup k m)
      then (k, v) ∷ erase k m
      else if ltb (length m) size
      then (k, v) ∷ m
      else (k, v) ∷ take (size - 1) m

  -- What `push` hands back: the old entry of the key, or else the entry that it displaced.
  unfoldable pub pushed_out : ℕ → K → List (K × V) → Option (K × V)
  pushed_out size k m = elim (lookup k m) [
    | some v ↦ some (k, v)
    | none ↦ if ltb (length m) size then none else get_last? m
  ]

  pub record IsLru (l : Lru K V) : Type 0 where
    pub iter-new : (n : ℕ) → l.iter (l.new n) ≡ []
    pub cap-new : (n : ℕ) → l.cap (l.new n) ≡ n
    pub len-iter : (c : l.Cache) → l.len c ≡ length (l.iter c)
    pub contains-iter : (k : K) (c : l.Cache) → l.contains k c ≡ is_some (lookup k (l.iter c))
    pub get-iter : (k : K) (c : l.Cache) → l.get k c ≡ lookup k (l.iter c)
    pub iter-update :
        (k : K) (v : V) (c : l.Cache) {w : V}
        → lookup k (l.iter c) ≡ some w
        → l.iter (l.update k v c) ≡ (k, v) ∷ erase k (l.iter c)
    pub iter-put :
        (k : K) (v : V) (c : l.Cache) → l.iter (l.put k v c) ≡ put_entry (l.cap c) k v (l.iter c)
    pub evicted-iter : (k : K) (c : l.Cache) → l.evicted k c ≡ pushed_out (l.cap c) k (l.iter c)
    pub iter-pop : (k : K) (c : l.Cache) → l.iter (l.pop k c) ≡ erase k (l.iter c)
    pub iter-clear : (c : l.Cache) → l.iter (l.clear c) ≡ []
    pub cap-update : (k : K) (v : V) (c : l.Cache) → l.cap (l.update k v c) ≡ l.cap c
    pub cap-put : (k : K) (v : V) (c : l.Cache) → l.cap (l.put k v c) ≡ l.cap c
    pub cap-pop : (k : K) (c : l.Cache) → l.cap (l.pop k c) ≡ l.cap c
    pub cap-clear : (c : l.Cache) → l.cap (l.clear c) ≡ l.cap c

  -- A reference cache: the capacity and the entries.
  abbrev pub list_lru : Lru K V
  list_lru = record {
    Cache = ℕ × List (K × V);
    new = λ n. (n, []);
    cap = λ c. c.0;
    len = λ c. length c.1;
    iter = λ c. c.1;
    contains = λ k c. is_some (lookup k c.1);
    get = λ k c. lookup k c.1;
    update = λ k v c. (c.0, (k, v) ∷ erase k c.1);
    put = λ k v c. (c.0, put_entry c.0 k v c.1);
    evicted = λ k c. pushed_out c.0 k c.1;
    pop = λ k c. (c.0, erase k c.1);
    clear = λ c. (c.0, []);
  }

  -- The hypotheses can be met.
  pub list_lru-IsLru : IsLru list_lru
  list_lru-IsLru = record {
    iter-new = λ n. refl;
    cap-new = λ n. refl;
    len-iter = λ c. refl;
    contains-iter = λ k c. refl;
    get-iter = λ k c. refl;
    iter-update = λ k v c h. refl;
    iter-put = λ k v c. refl;
    evicted-iter = λ k c. refl;
    iter-pop = λ k c. refl;
    iter-clear = λ c. refl;
    cap-update = λ k v c. refl;
    cap-put = λ k v c. refl;
    cap-pop = λ k c. refl;
    cap-clear = λ c. refl;
  }

  -- The invariant of the entries: within the capacity, no key twice.
  pub record IsEntries (size : ℕ) (m : List (K × V)) : Type 0 where
    pub bounded : length m ≤ size
    pub distinct : Distinct m

  pub put_entry-IsEntries :
      (size : ℕ) (k : K) (v : V) (m : List (K × V))
      → 0 < size
      → IsEntries size m
      → IsEntries size (put_entry size k v m)
  unfolding put_entry
  put_entry-IsEntries size k v m pos h = elim (Option-cases (lookup k m)) [
    | inl absent ↦
        rw (absent, put_entry)
          (record {
            bounded = ground (arith, length-take (size - 1) m);
            distinct =
                ground
                  (arith, Distinct-take (size - 1) m h.distinct, lookup-take k (size - 1) m absent);
          })
    | inr (w, present) ↦
        rw (present, put_entry)
          (record {
            bounded = omega (arith, length-erase k m present);
            distinct = (lookup-erase_self k m h.distinct, Distinct-erase k m h.distinct);
          })
  ]

  pub lookup-put_entry_self :
      (size : ℕ) (k : K) (v : V) (m : List (K × V)) → lookup k (put_entry size k v m) ≡ some v
  unfolding put_entry lookup
  lookup-put_entry_self size k v m = ground (arith, e.decides k k)

  -- An insertion of another key pushes a key back by one place at most.
  pub recent-put_entry :
      (size n : ℕ) (k j : K) (v : V) (m : List (K × V))
      → k ≢ j
      → n < size
      → is_some (lookup k (take n m)) ≡ true
      → is_some (lookup k (take (suc n) (put_entry size j v m))) ≡ true
  unfolding put_entry lookup
  recent-put_entry size n k j v m ne lt h =
      ground (arith, e.decides j k, lookup-take-erase k j n m ne, lookup-take-take k n (size - 1) m)

  pub recent-put_entry_self :
      (size : ℕ) (k : K) (v : V) (m : List (K × V))
      → is_some (lookup k (take 1 (put_entry size k v m))) ≡ true
  unfolding put_entry lookup
  recent-put_entry_self size k v m = ground (arith, e.decides k k)
