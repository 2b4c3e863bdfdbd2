-- ===== src/Bloom/Filter/Membership.antt =====
-- The filter has no false negatives, and a new one has no members.
use goplusplus.Prelude.{
  ℕ, zero, suc, ◌+◌, ◌<◌, ◌≡◌, refl, sym, subst, String, Bool, true, false, List, [], ◌∷◌, ◌++◌,
  arith, length, set, get_or, replicate, length-set, length-replicate, get_or-set_self,
  get_or-replicate, ap,
}
use goplusplus.Bloom.Filter.{
  Filter, Sizing, new_filter, bit_index, add_from, add, may_contain_from, may_contain, add_all,
}

-- Every index that the loops compute is inside the bit set.
pub record IsValid (f : Filter) : Type 0 where
  pub positive : 0 < f.size
  pub sized : length f.bitset ≡ f.size

-- `g` is `f` with more bits set.
pub record Extends (f g : Filter) : Type 0 where
  pub same_size : g.size ≡ f.size
  pub same_count : g.hash_count ≡ f.hash_count
  pub more : (j : ℕ) → get_or f.bitset j false ≡ true → get_or g.bitset j false ≡ true

Extends-trans : (f g h : Filter) → Extends f g → Extends g h → Extends f h
Extends-trans f g h p q = record {
  same_size = omega arith;
  same_count = omega arith;
  more = λ j e. q.more j (p.more j e);
}

set_bit : Filter → ℕ → Filter
set_bit f i = record f { bitset = set f.bitset i true }

set_bit-IsValid : (f : Filter) (i : ℕ) → IsValid f → IsValid (set_bit f i)
unfolding set_bit
set_bit-IsValid f i v = record {
  positive = v.positive;
  sized = omega (arith, length-set f.bitset i true);
}

get_or-set-true :
    (xs : List Bool) (i j : ℕ) → get_or xs j false ≡ true → get_or (set xs i true) j false ≡ true
get_or-set-true [] i j h = h
get_or-set-true (x ∷ xs) zero zero h = refl
get_or-set-true (x ∷ xs) zero (suc j) h = h
get_or-set-true (x ∷ xs) (suc i) zero h = h
get_or-set-true (x ∷ xs) (suc i) (suc j) h = get_or-set-true xs i j h

set_bit-Extends : (f : Filter) (i : ℕ) → Extends f (set_bit f i)
unfolding set_bit
set_bit-Extends f i = record {
  same_size = refl;
  same_count = refl;
  more = λ j e. get_or-set-true f.bitset i j e;
}

module _ (sum64 : String → ℕ) where
  add_from-IsValid :
      (n i : ℕ) (f : Filter) (key : String) → IsValid f → IsValid (add_from sum64 n i f key)
  unfolding add_from
  add_from-IsValid zero i f key v = v
  add_from-IsValid (suc n) i f key v =
      add_from-IsValid n (i + 1) _ key
        (unfold set_bit in (set_bit-IsValid f (bit_index sum64 f key i) v))

  add_from-Extends : (n i : ℕ) (f : Filter) (key : String) → Extends f (add_from sum64 n i f key)
  unfolding add_from set_bit
  add_from-Extends zero i f key = record { same_size = refl; same_count = refl; more = λ j e. e }
  add_from-Extends (suc n) i f key =
      let f' = set_bit f (bit_index sum64 f key i) in
      Extends-trans f f' (add_from sum64 n (i + 1) f' key)
        (set_bit-Extends f (bit_index sum64 f key i)) (add_from-Extends n (i + 1) f' key)

  may_contain_from-Extends :
      (n i : ℕ) (f g : Filter) (key : String)
      → Extends f g
      → may_contain_from sum64 n i f key ≡ true
      → may_contain_from sum64 n i g key ≡ true
  unfolding may_contain_from
  may_contain_from-Extends zero i f g key e h = refl
  may_contain_from-Extends (suc n) i f g key e h =
      ground (arith, e.more (bit_index sum64 f key i), may_contain_from-Extends n (i + 1) f g key e)

  add_from-may_contain :
      (n i : ℕ) (f : Filter) (key : String)
      → IsValid f
      → may_contain_from sum64 n i (add_from sum64 n i f key) key ≡ true
  unfolding add_from may_contain_from set_bit
  add_from-may_contain zero i f key v = refl
  add_from-may_contain (suc n) i f key v =
      let j = bit_index sum64 f key i in
      let f' = set_bit f j in
      let e = add_from-Extends n (i + 1) f' key in
      let inside : j < length f.bitset = grind arith in
      ground (
        arith,
        e.same_size,
        e.more j (get_or-set_self f.bitset j true false inside),
        add_from-may_contain n (i + 1) f' key (set_bit-IsValid f j v),
      )

  pub add-IsValid : (f : Filter) (key : String) → IsValid f → IsValid (add sum64 f key)
  unfolding add
  add-IsValid f key v = add_from-IsValid f.hash_count 0 f key v

  add-Extends : (f : Filter) (key : String) → Extends f (add sum64 f key)
  unfolding add
  add-Extends f key = add_from-Extends f.hash_count 0 f key

  may_contain-Extends :
      (f g : Filter) (key : String)
      → Extends f g
      → may_contain sum64 f key ≡ true
      → may_contain sum64 g key ≡ true
  unfolding may_contain
  may_contain-Extends f g key e h =
      subst (λ (n : ℕ). may_contain_from sum64 n 0 g key ≡ true) (sym e.same_count)
        (may_contain_from-Extends f.hash_count 0 f g key e h)

  may_contain-add :
      (f : Filter) (key : String) → IsValid f → may_contain sum64 (add sum64 f key) key ≡ true
  unfolding may_contain add
  may_contain-add f key v =
      subst (λ (n : ℕ). may_contain_from sum64 n 0 (add_from sum64 f.hash_count 0 f key) key ≡ true)
        (sym (add_from-Extends f.hash_count 0 f key).same_count)
        (add_from-may_contain f.hash_count 0 f key v)

  add_all-Extends : (f : Filter) (keys : List String) → Extends f (add_all sum64 f keys)
  unfolding add_all
  add_all-Extends f [] = record { same_size = refl; same_count = refl; more = λ j e. e }
  add_all-Extends f (key ∷ keys) =
      Extends-trans f (add sum64 f key) (add_all sum64 (add sum64 f key) keys) (add-Extends f key)
        (add_all-Extends (add sum64 f key) keys)

  may_contain-add_all :
      (f : Filter) (before after : List String) (key : String)
      → IsValid f
      → may_contain sum64 (add_all sum64 f (before ++ key ∷ after)) key ≡ true
  unfolding add_all
  may_contain-add_all f [] after key v =
      may_contain-Extends (add sum64 f key) (add_all sum64 (add sum64 f key) after) key
        (add_all-Extends (add sum64 f key) after) (may_contain-add f key v)
  may_contain-add_all f (k ∷ before) after key v =
      may_contain-add_all (add sum64 f k) before after key (add-IsValid f k v)

  may_contain_from_clear :
      (n i m : ℕ) (f : Filter) (key : String)
      → f.bitset ≡ replicate m false
      → 0 < n
      → may_contain_from sum64 n i f key ≡ false
  unfolding may_contain_from
  may_contain_from_clear zero i m f key clear some_rounds = elim some_rounds [ ]
  may_contain_from_clear (suc n) i m f key clear some_rounds =
      let j = bit_index sum64 f key i in
      ground
        (arith, ap (λ (bits : List Bool). get_or bits j false) clear, get_or-replicate m j false)

  module _ (sizing : Sizing) (capacity : ℕ) (fp_rate : Sizing.Rate sizing) where
    pub new_filter-IsValid : IsValid (new_filter sizing capacity fp_rate)
    unfolding new_filter
    new_filter-IsValid = record { positive = ground arith; sized = length-replicate _ false }

    -- Whatever the capacity, the rate and the floating-point arithmetic give for the sizes, and
    -- whatever the hash is: a filter answers true for every key that was added to it since it was
    -- made, whatever was added before and after that key.
    pub new_filter-may_contain :
        (before after : List String) (key : String)
        → may_contain sum64
            (add_all sum64 (new_filter sizing capacity fp_rate) (before ++ key ∷ after))
            key
          ≡ true
    new_filter-may_contain before after key =
        may_contain-add_all (new_filter sizing capacity fp_rate) before after key new_filter-IsValid

    -- A new filter answers false for every key.
    pub new_filter-empty :
        (key : String) → may_contain sum64 (new_filter sizing capacity fp_rate) key ≡ false
    unfolding new_filter may_contain
    new_filter-empty key =
        may_contain_from_clear _ 0 _ (new_filter sizing capacity fp_rate) key refl (ground arith)
