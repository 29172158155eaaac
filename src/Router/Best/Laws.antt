-- ===== src/Router/Best/Laws.antt =====
-- quote/router.rs: theorems on the choice of the best route.
use flow_trades_solana.Base.{
  ℕ, max, true, false, ◌≤◌, ◌≡◌, Option, none, some, List, [], ◌∷◌, All, arith,
}
use flow_trades_solana.Router.Best.{
  DirectRoute, TwoHopRoute, ThreeHopRoute, Chosen, greater, best_by, out_of, direct_out,
  two_hop_out, three_hop_out, pick, quote,
}

-- No route of a list gives more.
abbrev pub AtMost {ℓ} : {A : Type ℓ} → (A → ℕ) → ℕ → List A → Type 0
AtMost key n xs = All (λ x. key x ≤ n) xs

AtMost-mono {ℓ} :
    {A : Type ℓ} (key : A → ℕ) (m n : ℕ) (xs : List A) → m ≤ n → AtMost key m xs → AtMost key n xs
AtMost-mono key m n [] h a = a
AtMost-mono key m n (x ∷ xs) h (p, a) = (omega (arith, p, h), AtMost-mono key m n xs h a)

greater-le {ℓ} :
    {A : Type ℓ} (key : A → ℕ) (x : A) (o : Option A)
    → (key x ≤ out_of key (greater key x o)) × (out_of key o ≤ out_of key (greater key x o))
unfolding greater
greater-le key x none = ground arith
greater-le key x (some y) = ground arith

best_by-AtMost {ℓ} :
    {A : Type ℓ} (key : A → ℕ) (xs : List A) → AtMost key (out_of key (best_by key xs)) xs
unfolding best_by
best_by-AtMost key [] = tt
best_by-AtMost key (x ∷ xs) =
    let o = best_by key xs in
    let (here, there) = greater-le key x o in
    (
      here,
      AtMost-mono key (out_of key o) (out_of key (greater key x o)) xs there
          (best_by-AtMost key xs),
    )

abbrev pub value : Chosen → ℕ
value (Chosen.direct r) = r.out_amount
value (Chosen.two_hop r) = r.final_amount_out
value (Chosen.three_hop r) = r.final_amount_out

abbrev pub out_of_choice : Option Chosen → ℕ
out_of_choice none = 0
out_of_choice (some c) = value c

pick_greatest :
    (d : Option DirectRoute) (t : Option TwoHopRoute) (h : Option ThreeHopRoute)
    → out_of_choice (pick d t h)
      ≡ max (max (out_of direct_out d) (out_of two_hop_out t)) (out_of three_hop_out h)
unfolding pick
pick_greatest none none none = ground arith
pick_greatest none none (some h) = ground arith
pick_greatest none (some t) none = ground arith
pick_greatest none (some t) (some h) = ground arith
pick_greatest (some d) none none = ground arith
pick_greatest (some d) none (some h) = ground arith
pick_greatest (some d) (some t) none = ground arith
pick_greatest (some d) (some t) (some h) = ground arith

-- Among the candidates that are considered, all where routes of more hops are asked for, none gives more than the
-- chosen route, or than nothing where no route is chosen.
pub quote-AtMost :
    (directs : List DirectRoute) (twos : List TwoHopRoute) (threes : List ThreeHopRoute)
    → let best = out_of_choice (quote false directs twos threes) in
      AtMost direct_out best directs
      × AtMost two_hop_out best twos
      × AtMost three_hop_out best threes
      × AtMost direct_out (out_of_choice (quote true directs twos threes)) directs
unfolding quote best_by
quote-AtMost directs twos threes =
    let d = best_by direct_out directs in
    let t = best_by two_hop_out twos in
    let h = best_by three_hop_out threes in
    let all = pick_greatest d t h in
    let alone = pick_greatest d none none in
    (
      AtMost-mono direct_out (out_of direct_out d) (out_of_choice (pick d t h)) directs
          (omega (arith, all)) (best_by-AtMost direct_out directs),
      AtMost-mono two_hop_out (out_of two_hop_out t) (out_of_choice (pick d t h)) twos
          (omega (arith, all)) (best_by-AtMost two_hop_out twos),
      AtMost-mono three_hop_out (out_of three_hop_out h) (out_of_choice (pick d t h)) threes
          (omega (arith, all)) (best_by-AtMost three_hop_out threes),
      AtMost-mono direct_out (out_of direct_out d) (out_of_choice (pick d none none)) directs
          (omega (arith, alone)) (best_by-AtMost direct_out directs),
    )
