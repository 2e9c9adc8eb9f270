-- ===== src/FifoSequencer/Ordered.antt =====
-- Entries with distinct indices have one order by time and index.
use mathlib.Core.Logic.Or
use mathlib.Core.HLevel.{⊥_prop}
use mathlib.Core.List.{Permᴰ, Perm, Mem, mem-cons_self, not-mem-nil, eq-or-mem_of_mem-cons}
use mathlib.Core.List.Perm
use llcpp_exchange.Prelude.{
  ℕ, ◌≡◌, ◌≢◌, sym, ◌∙◌, ap, ap₂, subst, true, false, Option, none, some, List, [], ◌∷◌, arith,
  ◌==◌, if◌then◌else◌, All, ◌⊎◌, inl, inr, Bool-cases, eq_of_==, ne_of_==,
}
use llcpp_exchange.FifoSequencer.Sequencer.{RecvTimeClientRequest, before}

-- No entry is before an earlier one.
abbrev pub InOrder : List RecvTimeClientRequest → Type 0
InOrder [] = Unit
InOrder (x ∷ xs) = All (λ y. before y x ≡ false) xs × InOrder xs

abbrev pub find_index : ℕ → List RecvTimeClientRequest → Option RecvTimeClientRequest
find_index k [] = none
find_index k (x ∷ xs) = if x.arrival_index == k then some x else find_index k xs

-- The entries are those of `whole`, each the one of its index.
abbrev pub Stored : List RecvTimeClientRequest → List RecvTimeClientRequest → Type 0
Stored whole xs = All (λ x. find_index x.arrival_index whole ≡ some x) xs

pub All-perm {κ} : {A : Type 0} (P : A → Type κ) {l r : List A} → Permᴰ l r → All P l → All P r
All-perm P Permᴰ.nil h = tt
All-perm P (Permᴰ.cons e p) h = (subst P e h.0, All-perm P p h.1)
All-perm P (Permᴰ.swap e e') h = (subst P e' h.1.0, (subst P e h.0, h.1.1))
All-perm P (Permᴰ.trans p q) h = All-perm P q (All-perm P p h)

not_later :
    (x y : RecvTimeClientRequest) (xs : List RecvTimeClientRequest)
    → All (λ z. before z x ≡ false) xs
    → before y x ≡ true
    → Mem y xs
    → ⊥
not_later x y [] h b m = not-mem-nil m
not_later x y (z ∷ xs) h b m =
    Or.elim ⊥_prop (eq-or-mem_of_mem-cons m)
      (λ e. let c : before y x ≡ false = subst (λ w. before w x ≡ false) (sym e) h.0 in cc)
      (λ m'. not_later x y xs h.1 b m')

-- An entry of another index is not before the head of an ordered list that holds it.
not_before-head :
    (a b : RecvTimeClientRequest) (r : List RecvTimeClientRequest)
    → InOrder (b ∷ r)
    → a.arrival_index ≢ b.arrival_index
    → Mem a (b ∷ r)
    → before a b ≡ true
    → ⊥
not_before-head a b r o ne m e =
    Or.elim ⊥_prop (eq-or-mem_of_mem-cons m) (λ same. ne (ap (λ x. x.arrival_index) same))
      (λ later. not_later b a r o.0 e later)

before-total :
    (a b : RecvTimeClientRequest)
    → a.arrival_index ≢ b.arrival_index
    → (before a b ≡ true) ⊎ (before b a ≡ true)
before-total a b ne = elim (Bool-cases (before a b)) [ inl e ↦ inl e | inr e ↦ inr (ground arith) ]

heads_index :
    (a b : RecvTimeClientRequest) (l r : List RecvTimeClientRequest)
    → InOrder (a ∷ l)
    → InOrder (b ∷ r)
    → Perm (a ∷ l) (b ∷ r)
    → a.arrival_index ≡ b.arrival_index
heads_index a b l r ol or p = elim (Bool-cases (a.arrival_index == b.arrival_index)) [
  | inl e ↦ eq_of_== a.arrival_index b.arrival_index e
  | inr e ↦
      let ne = ne_of_== a.arrival_index b.arrival_index e in
      absurd (elim (before-total a b ne) [
        | inl f ↦ not_before-head a b r or ne ((Perm.mem_iff p).0 mem-cons_self) f
        | inr f ↦ not_before-head b a l ol (λ q. ne (sym q)) ((Perm.mem_iff p).1 mem-cons_self) f
      ])
]

pub InOrder-unique :
    (whole l r : List RecvTimeClientRequest)
    → Stored whole l
    → Stored whole r
    → InOrder l
    → InOrder r
    → Perm l r
    → l ≡ r
InOrder-unique whole [] r sl sr ol or p = Perm.nil-eq p
InOrder-unique whole (a ∷ l) [] sl sr ol or p = Perm.eq-nil p
InOrder-unique whole (a ∷ l) (b ∷ r) sl sr ol or p =
    let index = heads_index a b l r ol or p in
    let found : find_index a.arrival_index whole ≡ some b =
      ap (λ k. find_index k whole) index ∙ sr.0 in
    let head : a ≡ b = cc in
    let tails = Perm.cons_inv (Perm.trans p (Perm.symm (Perm.cons' head Perm.rfl))) in
    ap₂ ◌∷◌ head (InOrder-unique whole l r sl.1 sr.1 ol.1 or.1 tails)
