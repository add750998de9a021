-- ===== src/Memory/Balance.antt =====
-- A pool's books: what it counts as used is the size of its blocks in use, and the rest is available.
use net_llm.Prelude.{
  ℕ, ◌+◌, String, Bool, true, false, not, ◌&&◌, Option, none, some, List, [], ◌∷◌, ◌++◌, ◌≡◌, refl,
  sym, ap, subst, ◌∙◌, if◌then◌else◌, if_cases, select, All, arith, Bool-cases, inl, inr,
}
use net_llm.Prelude.Int.{
  ℤ, pos, ◌+ℤ◌, ◌-ℤ◌, leb_ℤ, eqb_ℤ, eqb-eq, pos_part, neg_part, parts-add, parts-sub, ext_ℤ,
}
use net_llm.Prelude.Dict.{Dict}
use net_llm.Memory.State.{MemoryBlock, MemoryPool}
use net_llm.Memory.Methods.{
  first_block, claim_block, or_create, find_or_create_block, draw_found, take_from, drawn_here,
  draw_from, free_block, give_back, defragment_pool,
}

abbrev pub in_use_size : List MemoryBlock → ℤ
in_use_size [] = pos 0
in_use_size (b ∷ bs) = let rest = in_use_size bs in if b.in_use then b.size +ℤ rest else rest

pub record IsBalanced (pool : MemoryPool) : Type 0 where
  pub used : pool.used ≡ in_use_size pool.blocks
  pub available : pool.used +ℤ pool.available ≡ pool.size

balance : {a b : ℤ} → a ≡ b → pos_part a + neg_part b ≡ pos_part b + neg_part a
balance {a = a} e = subst (λ x. pos_part a + neg_part x ≡ pos_part x + neg_part a) e refl

module _ (a b c : ℤ) where
  swap_first : a +ℤ (b +ℤ c) ≡ b +ℤ (a +ℤ c)
  swap_first =
      ext_ℤ _ _
        (omega (arith, parts-add a (b +ℤ c), parts-add b c, parts-add b (a +ℤ c), parts-add a c))

  move_over : (a +ℤ c) +ℤ (b -ℤ c) ≡ a +ℤ b
  move_over =
      ext_ℤ _ _
        (omega (arith, parts-add (a +ℤ c) (b -ℤ c), parts-add a c, parts-sub b c, parts-add a b))

  move_back : (a -ℤ c) +ℤ (b +ℤ c) ≡ a +ℤ b
  move_back =
      ext_ℤ _ _
        (omega (arith, parts-add (a -ℤ c) (b +ℤ c), parts-sub a c, parts-add b c, parts-add a b))

  take_off : a ≡ c +ℤ b → a -ℤ c ≡ b
  take_off e = ext_ℤ _ _ (omega (arith, balance e, parts-add c b, parts-sub a c))

  swap_add : a +ℤ b ≡ b +ℤ a
  swap_add = ext_ℤ _ _ (omega (arith, parts-add a b, parts-add b a))

  rest_is : a +ℤ b ≡ c → c -ℤ a ≡ b
  rest_is e = ext_ℤ _ _ (omega (arith, balance e, parts-add a b, parts-sub c a))

  add_back : a +ℤ (c -ℤ a) ≡ c
  add_back = ext_ℤ _ _ (omega (arith, parts-add a (c -ℤ a), parts-sub c a))

-- The blocks after a block of `size` was put to use.
abbrev Claims : List MemoryBlock → Option (List MemoryBlock × ℤ) → Type 0
Claims bs none = Unit
Claims bs (some (bs', size)) = in_use_size bs' ≡ size +ℤ in_use_size bs

keep_head :
    (u : Bool) (w x y s : ℤ)
    → y ≡ s +ℤ x
    → (if u then w +ℤ y else y) ≡ s +ℤ (if u then w +ℤ x else x)
keep_head true w x y s e = ap (λ z. w +ℤ z) e ∙ swap_first w s x
keep_head false w x y s e = e

first_block-Claims :
    (b : MemoryBlock) (bs : List MemoryBlock) (o : Option (List MemoryBlock × ℤ))
    → Claims bs o
    → Claims (b ∷ bs) (first_block b o)
first_block-Claims b bs none h = tt
first_block-Claims b bs (some (bs', s)) h =
    keep_head b.in_use b.size (in_use_size bs) (in_use_size bs') s h

free_if : (u v : Bool) → (not u && v) ≡ true → u ≡ false
free_if true v e = absurd (ground (arith, e))
free_if false v e = refl

claim_block-Claims :
    (size : ℤ) (now : ℕ) (bs : List MemoryBlock) → Claims bs (claim_block size now bs)
unfolding claim_block
claim_block-Claims size now [] = tt
claim_block-Claims size now (b ∷ bs) =
    let rest = in_use_size bs in
    if_cases (Claims (b ∷ bs)) (not b.in_use && leb_ℤ size b.size) _ _
      (λ free.
        ap (λ u. b.size +ℤ (if u then b.size +ℤ rest else rest))
          (sym (free_if b.in_use (leb_ℤ size b.size) free)))
      (λ _. first_block-Claims b bs (claim_block size now bs) (claim_block-Claims size now bs))

new_block-Claims :
    (bs : List MemoryBlock) (id : String) (size : ℤ) (now : ℕ)
    → in_use_size (bs ++ (record { id = id; size = size; in_use = true; allocated_at = now } ∷ []))
      ≡ size +ℤ in_use_size bs
new_block-Claims [] id size now = refl
new_block-Claims (b ∷ bs) id size now =
    keep_head b.in_use b.size (in_use_size bs) _ size (new_block-Claims bs id size now)

or_create-Claims :
    (pool : MemoryPool) (size : ℤ) (id : String) (now : ℕ) (o : Option (List MemoryBlock × ℤ))
    → Claims pool.blocks o
    → Claims pool.blocks (or_create pool size id now o)
unfolding or_create
or_create-Claims pool size id now (some found) h = h
or_create-Claims pool size id now none h =
    if_cases (Claims pool.blocks) (leb_ℤ size pool.available) _ _
      (λ _. new_block-Claims pool.blocks id size now) (λ _. tt)

abbrev BalancedPool : Option (MemoryPool × ℤ) → Type 0
BalancedPool none = Unit
BalancedPool (some (pool, size)) = IsBalanced pool

draw_found-IsBalanced :
    (pool : MemoryPool) (o : Option (List MemoryBlock × ℤ))
    → IsBalanced pool
    → Claims pool.blocks o
    → BalancedPool (draw_found pool o)
draw_found-IsBalanced pool none b h = tt
draw_found-IsBalanced pool (some (blocks, size)) b h = record {
  used = ap (λ u. u +ℤ size) b.used ∙ swap_add (in_use_size pool.blocks) size size ∙ sym h;
  available = move_over pool.used pool.available size ∙ b.available;
}

take_from-IsBalanced :
    (pool : MemoryPool) (size : ℤ) (id : String) (now : ℕ)
    → IsBalanced pool
    → BalancedPool (take_from pool size id now)
unfolding take_from find_or_create_block
take_from-IsBalanced pool size id now b =
    if_cases BalancedPool (leb_ℤ size pool.available) _ _
      (λ _.
        draw_found-IsBalanced pool _ b
          (or_create-Claims pool size id now _ (claim_block-Claims size now pool.blocks)))
      (λ _. tt)

abbrev pub AllBalanced : Dict MemoryPool → Type 0
AllBalanced = All (λ entry. IsBalanced entry.1)

abbrev pub BalancedDraw : Option (Dict MemoryPool × String × ℤ) → Type 0
BalancedDraw none = Unit
BalancedDraw (some (pools, pool_id, size)) = AllBalanced pools

drawn_here-IsBalanced :
    (k : String) (pool : MemoryPool) (pools : Dict MemoryPool) (o : Option (MemoryPool × ℤ))
    (rest : Option (Dict MemoryPool × String × ℤ))
    → IsBalanced pool
    → AllBalanced pools
    → BalancedPool o
    → BalancedDraw rest
    → BalancedDraw (drawn_here k pool pools o rest)
drawn_here-IsBalanced k pool pools (some (pool', size)) rest b bs h r = (h, bs)
drawn_here-IsBalanced k pool pools none none b bs h r = tt
drawn_here-IsBalanced k pool pools none (some (pools', id, size)) b bs h r = (b, r)

pub draw_from-IsBalanced :
    (pools : Dict MemoryPool) (size : ℤ) (id : String) (now : ℕ)
    → AllBalanced pools
    → BalancedDraw (draw_from pools size id now)
unfolding draw_from
draw_from-IsBalanced [] size id now b = tt
draw_from-IsBalanced ((k, pool) ∷ pools) size id now b =
    drawn_here-IsBalanced k pool pools _ _ b.0 b.1 (take_from-IsBalanced pool size id now b.0)
      (draw_from-IsBalanced pools size id now b.1)

-- The blocks after the search for a block in use of `size`.
abbrev Frees : ℤ → List MemoryBlock → List MemoryBlock × Bool → Type 0
Frees size bs (bs', true) = in_use_size bs ≡ size +ℤ in_use_size bs'
Frees size bs (bs', false) = Unit

both_true : (u v : Bool) → (u && v) ≡ true → (u ≡ true) × (v ≡ true)
both_true true v e = (refl, e)
both_true false v e = absurd (ground (arith, e))

next-Frees :
    (size : ℤ) (b : MemoryBlock) (bs bs' : List MemoryBlock) (freed : Bool)
    → Frees size bs (bs', freed)
    → Frees size (b ∷ bs) (b ∷ bs', freed)
next-Frees size b bs bs' true h =
    keep_head b.in_use b.size (in_use_size bs') (in_use_size bs) size h
next-Frees size b bs bs' false h = tt

free_block-Frees : (size : ℤ) (bs : List MemoryBlock) → Frees size bs (free_block size bs)
unfolding free_block
free_block-Frees size [] = tt
free_block-Frees size (b ∷ bs) =
    if_cases (Frees size (b ∷ bs)) (b.in_use && eqb_ℤ b.size size) _ _
      (λ e.
        let (used, same) = both_true b.in_use (eqb_ℤ b.size size) e in
        ap (λ u. if u then b.size +ℤ in_use_size bs else in_use_size bs) used
        ∙ ap (λ s. s +ℤ in_use_size bs) (eqb-eq b.size size same))
      (λ _.
        next-Frees size b bs (free_block size bs).0 (free_block size bs).1
          (free_block-Frees size bs))

given-IsBalanced :
    (size : ℤ) (pool : MemoryPool) (bs : List MemoryBlock) (freed : Bool)
    → IsBalanced pool
    → Frees size pool.blocks (bs, freed)
    → IsBalanced (
        if freed
        then record pool {
          blocks = bs;
          used = pool.used -ℤ size;
          available = pool.available +ℤ size;
        }
        else pool)
given-IsBalanced size pool bs true b h = record {
  used = take_off pool.used (in_use_size bs) size (b.used ∙ h);
  available = move_back pool.used pool.available size ∙ b.available;
}
given-IsBalanced size pool bs false b h = b

pub give_back-IsBalanced :
    (size : ℤ) (pool : MemoryPool) → IsBalanced pool → IsBalanced (give_back size pool)
unfolding give_back
give_back-IsBalanced size pool b =
    given-IsBalanced size pool (free_block size pool.blocks).0 (free_block size pool.blocks).1 b
      (free_block-Frees size pool.blocks)

in_use_size-select :
    (bs : List MemoryBlock) → in_use_size (select (λ b. b.in_use) bs) ≡ in_use_size bs
in_use_size-select [] = refl
in_use_size-select (b ∷ bs) = elim (Bool-cases b.in_use) [
  | inl u ↦ rw u (ap (λ z. b.size +ℤ z) (in_use_size-select bs))
  | inr f ↦ rw f (in_use_size-select bs)
]

pub defragment_pool-IsBalanced :
    (pool : MemoryPool) → IsBalanced pool → IsBalanced (defragment_pool pool)
unfolding defragment_pool
defragment_pool-IsBalanced pool b = record {
  used = b.used ∙ sym (in_use_size-select pool.blocks);
  available = add_back pool.used pool.size pool.size;
}
