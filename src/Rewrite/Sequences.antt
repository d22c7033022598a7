-- ===== src/Rewrite/Sequences.antt =====
-- What the internal rules for a sequence rule generate. Their virtual symbol stands first.
use marpa_r.Prelude.{
  ℕ, zero, suc, ◌≡◌, ◌≢◌, refl, ap, ◌∙◌, sym, ◌↔◌, ◌⊎◌, inl, inr, Bool, true, false, not, List, [],
  ◌∷◌, ◌++◌, some, get_or, arith, if◌then◌else◌,
}
use mathlib.Core.List.{Memᴰ, append-nil}
use mathlib.Core.List.Memᴰ
use marpa_r.Grammar.{Xrl}
use marpa_r.Rewrite.{Irl}
use marpa_r.Rewrite.Rules.{plain_irl, sequence_irls}
use marpa_r.Rewrite.Language.{AllOf}

-- `w` is what rules with the source `rule_id` generate from the internal symbol `l`, a virtual
-- symbol at the start of a right side replaced by what the rules for it generate.
pub data Repeats (irls : List Irl) (rule_id : ℕ) : ℕ → List ℕ → Type 0 where
  once :
      {l : ℕ} {w : List ℕ} (irl : Irl)
      → Memᴰ irl irls
      → irl.source_xrl ≡ some rule_id
      → irl.lhs ≡ l
      → irl.has_virtual_rhs ≡ false
      → w ≡ irl.rhs
      → Repeats irls rule_id l w
  onward :
      {l : ℕ} {w : List ℕ} (irl : Irl) (v : ℕ) (u w' : List ℕ)
      → Memᴰ irl irls
      → irl.source_xrl ≡ some rule_id
      → irl.lhs ≡ l
      → irl.has_virtual_rhs ≡ true
      → irl.rhs ≡ v ∷ u
      → Repeats irls rule_id v w'
      → w ≡ w' ++ u
      → Repeats irls rule_id l w

-- An item, then `n` times the separator and an item.
abbrev pub repeated : ℕ → ℕ → List ℕ → List ℕ
repeated zero item sep = item ∷ []
repeated (suc n) item sep = repeated n item sep ++ (sep ++ item ∷ [])

-- The words of a sequence: without proper separation, a separator may end it.
abbrev pub IsSequence : Bool → ℕ → List ℕ → List ℕ → Type 0
IsSequence proper item sep w =
    (n : ℕ) × ((w ≡ repeated n item sep)
      ⊎ ((proper ≡ false) × (sep ≢ []) × (w ≡ repeated n item sep ++ sep)))

module _ (irls : List Irl) (id : ℕ) (rule : Xrl) (l v item : ℕ) (sep : List ℕ)
    (one : (s : ℕ) (seps : List ℕ) → sep ≡ s ∷ seps → seps ≡ []) (other : l ≢ v) where
  -- A rule, by its left side, whether it has a virtual symbol, and its right side.
  abbrev Looks : Irl → ℕ → Bool → List ℕ → Type 0
  Looks irl lhs b rhs = (irl.lhs ≡ lhs) × (irl.has_virtual_rhs ≡ b) × (irl.rhs ≡ rhs)

  abbrev OfLooks : Irl → Type 0
  OfLooks irl =
      Looks irl l true (v ∷ [])
      ⊎ (((rule.is_proper_separation ≡ false) × (sep ≢ []) × Looks irl l true (v ∷ sep))
          ⊎ (Looks irl v false (item ∷ []) ⊎ Looks irl v true (v ∷ (sep ++ item ∷ []))))

  looks_of :
      (proper : Bool) (sep' : List ℕ) (irl : Irl)
      → rule.is_proper_separation ≡ proper
      → sep ≡ sep'
      → Memᴰ irl (
          if not proper
          then elim sep' as (λ _. List Irl) [
            | [] ↦ []
            | s ∷ seps ↦
                record (plain_irl id rule l (v ∷ s ∷ [])) {
                  has_virtual_rhs = true;
                  real_symbol_count = 1;
                }
                ∷ []
          ]
          else [])
      → OfLooks irl
  unfolding plain_irl
  looks_of true sep' irl p e m = absurd (Memᴰ.not-nil m)
  looks_of false [] irl p e m = absurd (Memᴰ.not-nil m)
  looks_of false (s ∷ seps) irl p e m =
      let r = Memᴰ.eq_of_singleton m in
      let t : sep ≡ s ∷ [] = e ∙ ap (λ z. s ∷ z) (one s seps e) in
      inr (
        inl (
          p,
          λ z. absurd (ground (arith, z, t)),
          (
            ap (λ (i : Irl). i.lhs) r,
            ap (λ (i : Irl). i.has_virtual_rhs) r,
            ap (λ (i : Irl). i.rhs) r ∙ ap (λ z. v ∷ z) (sym t),
          ),
        ))

  looks : (irl : Irl) → Memᴰ irl (sequence_irls id rule l v item sep) → OfLooks irl
  unfolding sequence_irls plain_irl
  looks irl (Memᴰ.head e) =
      inl (
        ap (λ (i : Irl). i.lhs) e,
        ap (λ (i : Irl). i.has_virtual_rhs) e,
        ap (λ (i : Irl). i.rhs) e,
      )
  looks irl (Memᴰ.tail m) = elim (Memᴰ.append_cases _ m) [
    | inl t ↦ looks_of rule.is_proper_separation sep irl refl refl t
    | inr (Memᴰ.head e) ↦ inr (
        inr (
          inl (
            ap (λ (i : Irl). i.lhs) e,
            ap (λ (i : Irl). i.has_virtual_rhs) e,
            ap (λ (i : Irl). i.rhs) e,
          )))
    | inr (Memᴰ.tail t) ↦
        let e = Memᴰ.eq_of_singleton t in
        inr (
          inr (
            inr (
              ap (λ (i : Irl). i.lhs) e,
              ap (λ (i : Irl). i.has_virtual_rhs) e,
              ap (λ (i : Irl). i.rhs) e,
            )))
  ]

  module _ (all : AllOf irls id (sequence_irls id rule l v item sep)) where
    head_tail : (v' w' : ℕ) (u u' : List ℕ) → v' ∷ u ≡ w' ∷ u' → (v' ≡ w') × (u ≡ u')
    head_tail v' w' u u' e = (
      ap (λ z. get_or z 0 0) e,
      ap (λ (z : List ℕ). elim z as (λ _. List ℕ) [ [] ↦ [] | x ∷ y ↦ y ]) e,
    )

    -- The virtual symbol generates items with separators between them.
    items : (w : List ℕ) (s : ℕ) → s ≡ v → Repeats irls id s w → (n : ℕ) × (w ≡ repeated n item sep)
    items w s h (once irl m p e g q) = elim (looks irl (all.owned irl m p)) [
      | inl (a, b, c) ↦ absurd (other (sym a ∙ e ∙ h))
      | inr (inl (_, _, (a, b, c))) ↦ absurd (other (sym a ∙ e ∙ h))
      | inr (inr (inl (a, b, c))) ↦ (0, q ∙ c)
      | inr (inr (inr (a, b, c))) ↦ absurd (ground (arith, b, g))
    ]
    items w s h (onward irl v' u w' m p e g r d q) = elim (looks irl (all.owned irl m p)) [
      | inl (a, b, c) ↦ absurd (other (sym a ∙ e ∙ h))
      | inr (inl (_, _, (a, b, c))) ↦ absurd (other (sym a ∙ e ∙ h))
      | inr (inr (inl (a, b, c))) ↦ absurd (ground (arith, b, g))
      | inr (inr (inr (a, b, c))) ↦
          let (i, j) = head_tail v' v u (sep ++ item ∷ []) (sym r ∙ c) in
          let (n, t) = items w' v' i d in
          (suc n, q ∙ ap (λ z. z ++ u) t ∙ ap (λ z. repeated n item sep ++ z) j)
    ]

    IsSequence-to :
        (w : List ℕ) (s : ℕ)
        → s ≡ l
        → Repeats irls id s w
        → IsSequence rule.is_proper_separation item sep w
    IsSequence-to w s h (once irl m p e g q) = elim (looks irl (all.owned irl m p)) [
      | inl (a, b, c) ↦ absurd (ground (arith, b, g))
      | inr (inl (_, _, (a, b, c))) ↦ absurd (ground (arith, b, g))
      | inr (inr (inl (a, b, c))) ↦ absurd (other (sym h ∙ sym e ∙ a))
      | inr (inr (inr (a, b, c))) ↦ absurd (other (sym h ∙ sym e ∙ a))
    ]
    IsSequence-to w s h (onward irl v' u w' m p e g r d q) = elim (looks irl (all.owned irl m p)) [
      | inl (a, b, c) ↦
          let (i, j) = head_tail v' v u [] (sym r ∙ c) in
          let (n, t) = items w' v' i d in (n, inl (q ∙ ap (λ z. w' ++ z) j ∙ append-nil w' ∙ t))
      | inr (inl (x, y, (a, b, c))) ↦
          let (i, j) = head_tail v' v u sep (sym r ∙ c) in
          let (n, t) = items w' v' i d in
          (n, inr (x, y, q ∙ ap (λ z. w' ++ z) j ∙ ap (λ z. z ++ sep) t))
      | inr (inr (inl (a, b, c))) ↦ absurd (other (sym h ∙ sym e ∙ a))
      | inr (inr (inr (a, b, c))) ↦ absurd (other (sym h ∙ sym e ∙ a))
    ]

    items_from : (n : ℕ) → Repeats irls id v (repeated n item sep)
    unfolding sequence_irls plain_irl
    items_from zero =
        once _ (all.inside _ (Memᴰ.tail (Memᴰ.append_right _ (Memᴰ.head refl)))) refl refl refl refl
    items_from (suc n) =
        onward _ v (sep ++ item ∷ []) (repeated n item sep)
          (all.inside _ (Memᴰ.tail (Memᴰ.append_right _ (Memᴰ.tail (Memᴰ.head refl))))) refl refl
          refl refl (items_from n) refl

    -- The rule for a separator at the end.
    trailing : Irl
    unfolding plain_irl
    trailing = record (plain_irl id rule l (v ∷ sep)) {
      has_virtual_rhs = true;
      real_symbol_count = 1;
    }

    trailing_in :
        (proper : Bool) (sep' : List ℕ)
        → proper ≡ false
        → sep ≡ sep'
        → sep ≢ []
        → Memᴰ trailing (
            if not proper
            then elim sep' as (λ _. List Irl) [
              | [] ↦ []
              | s ∷ seps ↦
                  record (plain_irl id rule l (v ∷ s ∷ [])) {
                    has_virtual_rhs = true;
                    real_symbol_count = 1;
                  }
                  ∷ []
            ]
            else [])
    unfolding trailing plain_irl
    trailing_in true sep' p e h = absurd (ground (arith, p))
    trailing_in false [] p e h = absurd (h e)
    trailing_in false (s ∷ seps) p e h =
        let t : sep ≡ s ∷ [] = e ∙ ap (λ z. s ∷ z) (one s seps e) in
        Memᴰ.head (
          ap
            (λ z. record (plain_irl id rule l (v ∷ z)) {
              has_virtual_rhs = true;
              real_symbol_count = 1;
            })
            t)

    IsSequence-from :
        (w : List ℕ) → IsSequence rule.is_proper_separation item sep w → Repeats irls id l w
    unfolding sequence_irls plain_irl trailing
    IsSequence-from w (n, inl p) =
        onward _ v [] (repeated n item sep) (all.inside _ (Memᴰ.head refl)) refl refl refl refl
          (items_from n) (p ∙ sym (append-nil (repeated n item sep)))
    IsSequence-from w (n, inr (g, h, p)) =
        onward trailing v sep (repeated n item sep)
          (all.inside trailing
            (Memᴰ.tail (Memᴰ.append_left _ (trailing_in rule.is_proper_separation sep g refl h))))
          refl refl refl refl (items_from n) p

    pub sequence_irls_lem :
        (w : List ℕ) → Repeats irls id l w ↔ IsSequence rule.is_proper_separation item sep w
    sequence_irls_lem w = (IsSequence-to w l refl, IsSequence-from w)
