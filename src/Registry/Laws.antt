-- ===== src/Registry/Laws.antt =====
-- pool/registry.rs: theorems on the index by mint pair.
use flow_trades_solana.Base.{
  sym, All, ◌≡◌, refl, ap, ◌∙◌, ==_iff, Bool, true, false, ◌&&◌, ◌||◌, not, Option, none, some,
  List, [], ◌∷◌, ◌++◌, ◌==◌, arith, inl, inr, Bool-cases, Option-cases,
}
use flow_trades_solana.Registry.{
  Pubkey, PoolEntry, PoolRegistry, sorted_pair, same_pair, member, retain_not, push_missing, unlist,
  forget_old, add, from_entries, remove, remove_found, addresses_of, entries_at, lookup, empty,
}

sorted_pair_comm : (a b : Pubkey) → sorted_pair a b ≡ sorted_pair b a
unfolding sorted_pair
sorted_pair_comm a b = ground arith

-- Whether a pool stands under a pair.
pub belongs : Option PoolEntry → Pubkey × Pubkey → Bool
belongs none key = false
belongs (some e) key = same_pair key (sorted_pair e.mint_a e.mint_b)

-- Under every pair, the index lists the pools of that pair and no other address.
pub Consistent : PoolRegistry → Type 0
Consistent r =
    (x a b : Pubkey) → member x (addresses_of (r.mint_index (a, b))) ≡ belongs (r.pools x) (a, b)

-- An empty registry is consistent.
pub empty-Consistent : Consistent empty
unfolding Consistent empty member addresses_of belongs
empty-Consistent x a b = refl

member-retain_not :
    (x y : Pubkey) (xs : List Pubkey) → member x (retain_not y xs) ≡ (not (x == y) && member x xs)
unfolding member retain_not
member-retain_not x y [] = ground arith
member-retain_not x y (z ∷ zs) = ground (arith, member-retain_not x y zs)

pub member_snoc :
    (x y : Pubkey) (xs : List Pubkey) → member x (xs ++ (y ∷ [])) ≡ (x == y || member x xs)
unfolding member
member_snoc x y [] = ground arith
member_snoc x y (z ∷ zs) = ground (arith, member_snoc x y zs)

-- No address occurs twice.
abbrev pub Distinct : List Pubkey → Type 0
Distinct [] = Unit
Distinct (x ∷ xs) = (member x xs ≡ false) × Distinct xs

pub snoc-Distinct :
    (xs : List Pubkey) (x : Pubkey) → Distinct xs → member x xs ≡ false → Distinct (xs ++ (x ∷ []))
unfolding member
snoc-Distinct [] x h out = (refl, tt)
snoc-Distinct (y ∷ ys) x (h, hs) out =
    (ground (arith, h, out, member_snoc y x ys), snoc-Distinct ys x hs (ground (arith, out)))

pub member-push_missing :
    (x y : Pubkey) (o : Option (List Pubkey))
    → member x (push_missing y o) ≡ (x == y || member x (addresses_of o))
unfolding push_missing member addresses_of
member-push_missing x y none = ground arith
member-push_missing x y (some xs) = elim (Bool-cases (member y xs)) [
  | inl e ↦ ground arith
  | inr e ↦ ground (arith, member_snoc x y xs)
]

member-unlist :
    (x y : Pubkey) (o : Option (List Pubkey))
    → member x (addresses_of (unlist y o)) ≡ (not (x == y) && member x (addresses_of o))
unfolding unlist addresses_of member
member-unlist x y none = ground arith
member-unlist x y (some xs) = member-retain_not x y xs

remove_found-Consistent :
    (x : Pubkey) (e : PoolEntry) (r : PoolRegistry)
    → r.pools x ≡ some e
    → Consistent r
    → Consistent (remove_found x e r)
unfolding remove_found Consistent belongs
remove_found-Consistent x e r he c y a b =
    let here = member y (addresses_of (r.mint_index (a, b))) in
    let listed = member-unlist y x (r.mint_index (a, b)) in
    let at_key = Bool-cases (same_pair (a, b) (sorted_pair e.mint_a e.mint_b)) in
    elim (Bool-cases (y == x)) [
      | inl ey ↦
          let under : here ≡ same_pair (a, b) (sorted_pair e.mint_a e.mint_b) =
            c y a b ∙ ap (λ o. belongs o (a, b)) (ap r.pools ((==_iff y x).0 ey) ∙ he) in
          elim at_key [
            | inl ek ↦ rw (ey, ek) (listed ∙ ap (λ t. not t && here) ey)
            | inr ek ↦ rw (ey, ek) (under ∙ ek)
          ]
      | inr ey ↦ elim at_key [
        | inl ek ↦ rw (ey, ek) (listed ∙ ap (λ t. not t && here) ey ∙ c y a b)
        | inr ek ↦ rw (ey, ek) (c y a b)
      ]
    ]

-- When the index is consistent, it still is after a pool is removed.
pub remove-Consistent : (x : Pubkey) (r : PoolRegistry) → Consistent r → Consistent (remove x r)
unfolding remove
remove-Consistent x r c = elim (Option-cases (r.pools x)) [
  | inl e ↦ rw (e, remove) c
  | inr (p, e) ↦ rw (e, remove) (remove_found-Consistent x p r e c)
]

same_pair_trans :
    (a b c : Pubkey × Pubkey) → same_pair a b ≡ true → same_pair b c ≡ true → same_pair a c ≡ true
unfolding same_pair
same_pair_trans (a, a1) (b, b1) (c, c1) h h1 = ground arith

-- Other addresses stay listed.
forget_old_other :
    (x y : Pubkey) (old : Option PoolEntry) (pair key : Pubkey × Pubkey)
    (index : Pubkey × Pubkey → Option (List Pubkey))
    → (y == x) ≡ false
    → member y (addresses_of (forget_old x old pair index key))
      ≡ member y (addresses_of (index key))
unfolding forget_old
forget_old_other x y none pair key index h = refl
forget_old_other x y (some old) pair key index h =
    let old_pair = sorted_pair old.mint_a old.mint_b in
    elim (Bool-cases (not (same_pair old_pair pair) && same_pair key old_pair)) [
      | inl e ↦
          rw e (
            member-unlist y x (index key)
            ∙ ap (λ t. not t && member y (addresses_of (index key))) h)
      | inr e ↦ rw e refl
    ]

-- The replaced address is under no other pair.
forget_old_same :
    (x : Pubkey) (old : Option PoolEntry) (pair key : Pubkey × Pubkey)
    (index : Pubkey × Pubkey → Option (List Pubkey))
    → member x (addresses_of (index key)) ≡ belongs old key
    → same_pair key pair ≡ false
    → member x (addresses_of (forget_old x old pair index key)) ≡ false
unfolding forget_old belongs
forget_old_same x none pair key index c h = c
forget_old_same x (some old) pair key index c h =
    let old_pair = sorted_pair old.mint_a old.mint_b in
    let here = member x (addresses_of (index key)) in
    elim (Bool-cases (not (same_pair old_pair pair) && same_pair key old_pair)) [
      | inl e ↦ rw e (member-unlist x x (index key) ∙ ap (λ t. not t && here) ((==_iff x x).1 refl))
      | inr e ↦ rw e (c ∙ ground (arith, same_pair_trans key old_pair pair))
    ]

-- When the index is consistent, it still is after a pool is added.
pub add-Consistent : (e : PoolEntry) (r : PoolRegistry) → Consistent r → Consistent (add e r)
unfolding add Consistent belongs addresses_of
add-Consistent e r c y a b =
    let x = e.address in
    let pair = sorted_pair e.mint_a e.mint_b in
    let index = forget_old x (r.pools x) pair r.mint_index (a, b) in
    let pushed = member-push_missing y x index in
    let at_key = Bool-cases (same_pair (a, b) pair) in
    elim (Bool-cases (y == x)) [
      | inl ey ↦ elim at_key [
        | inl ek ↦ rw (ey, ek) (pushed ∙ ap (λ t. t || member y (addresses_of index)) ey)
        | inr ek ↦
            rw (ey, ek)
              (ap (λ z. member z (addresses_of index)) ((==_iff y x).0 ey)
                ∙ forget_old_same x (r.pools x) pair (a, b) r.mint_index (c x a b) ek)
      ]
      | inr ey ↦
          let other = forget_old_other x y (r.pools x) pair (a, b) r.mint_index ey ∙ c y a b in
          elim at_key [
            | inl ek ↦
                rw (ey, ek) (pushed ∙ ap (λ t. t || member y (addresses_of index)) ey ∙ other)
            | inr ek ↦ rw (ey, ek) other
          ]
    ]

-- A registry built from a list of entries is consistent.
pub from_entries-Consistent :
    (es : List PoolEntry) (r : PoolRegistry) → Consistent r → Consistent (from_entries es r)
unfolding from_entries
from_entries-Consistent [] r c = c
from_entries-Consistent (e ∷ es) r c = from_entries-Consistent es (add e r) (add-Consistent e r c)

-- A lookup does not depend on the order of the two mints.
pub lookup_symmetric : (a b : Pubkey) (r : PoolRegistry) → lookup a b r ≡ lookup b a r
unfolding lookup
lookup_symmetric a b r =
    ap (λ k. entries_at r (addresses_of (r.mint_index k))) (sorted_pair_comm a b)

-- The entries of a lookup that stand under its pair.
pub Listed : Pubkey → Pubkey → PoolEntry → Type 0
Listed a b e = same_pair (sorted_pair a b) (sorted_pair e.mint_a e.mint_b) ≡ true

entries_at_sound :
    (a b : Pubkey) (r : PoolRegistry) (xs : List Pubkey)
    → ((x : Pubkey) → member x xs ≡ true → belongs (r.pools x) (sorted_pair a b) ≡ true)
    → All (Listed a b) (entries_at r xs)
unfolding entries_at belongs member Listed
entries_at_sound a b r [] h = tt
entries_at_sound a b r (x ∷ xs) h =
    let later = entries_at_sound a b r xs (λ y m. h y (ground arith)) in
    elim (Option-cases (r.pools x)) [
      | inl e ↦ rw (e, entries_at) later
      | inr (p, e) ↦
          let first : belongs (r.pools x) (sorted_pair a b) ≡ true = h x (ground arith) in
          rw (e, entries_at) (sym (ap (λ o. belongs o (sorted_pair a b)) e) ∙ first, later)
    ]

-- With a consistent index, every pool that a lookup returns has the two mints that were looked up, in
-- either order.
pub lookup_sound :
    (a b : Pubkey) (r : PoolRegistry) → Consistent r → All (Listed a b) (lookup a b r)
unfolding lookup Consistent
lookup_sound a b r c =
    let k = sorted_pair a b in
    entries_at_sound a b r (addresses_of (r.mint_index k)) (λ x m. sym (c x k.0 k.1) ∙ m)
