-- ===== src/Expressions/Ownership.antt =====
-- Which expressions of the host a plugin holds (extensions/attributegen/plugin.cc,
-- extensions/stats/plugin.cc).
use wasm_extensions.Prelude.{
  ℕ, Bytes, ◌≡◌, refl, ◌∙◌, Bool, true, false, ◌||◌, List, [], ◌∷◌, ◌++◌, if◌then◌else◌, ◌==◌,
  ==_iff, Bool-cases, arith, inl, inr,
}
use wasm_extensions.Host.{is_ok}
use wasm_extensions.Expressions.{ExprHost, ExprLaws, delete_all}

abbrev pub elem : ℕ → List ℕ → Bool
elem u [] = false
elem u (t ∷ ts) = (u == t) || elem u ts

abbrev pub Distinct : List ℕ → Type 0
Distinct [] = Unit
Distinct (t ∷ ts) = (elem t ts ≡ false) × Distinct ts

pub elem-snoc : (u t : ℕ) (ts : List ℕ) → elem u (ts ++ t ∷ []) ≡ (elem u ts || (u == t))
elem-snoc u t [] = ground arith
elem-snoc u t (x ∷ xs) = ground (arith, elem-snoc u t xs)

Distinct-snoc : (t : ℕ) (ts : List ℕ) → elem t ts ≡ false → Distinct ts → Distinct (ts ++ t ∷ [])
Distinct-snoc t [] new d = (refl, tt)
Distinct-snoc t (x ∷ xs) new d =
    (ground (arith, elem-snoc x t xs), Distinct-snoc t xs (ground arith) d.1)

pub elem-append : (u : ℕ) (xs ys : List ℕ) → elem u (xs ++ ys) ≡ (elem u xs || elem u ys)
elem-append u [] ys = refl
elem-append u (x ∷ xs) ys = ground (arith, elem-append u xs ys)

elem_between : (u t : ℕ) (xs ys : List ℕ) → elem u (xs ++ t ∷ ys) ≡ (elem u (xs ++ ys) || (u == t))
elem_between u t [] ys = ground arith
elem_between u t (x ∷ xs) ys = ground (arith, elem_between u t xs ys)

Distinct-between :
    (t : ℕ) (xs ys : List ℕ)
    → elem t (xs ++ ys) ≡ false
    → Distinct (xs ++ ys)
    → Distinct (xs ++ t ∷ ys)
Distinct-between t [] ys new d = (new, d)
Distinct-between t (x ∷ xs) ys new d =
    (ground (arith, elem_between x t xs ys), Distinct-between t xs ys (ground arith) d.1)

module _ {H : Type 0} (host : ExprHost H) where
  -- What is live is what was live in `base` and the tokens, which are new and distinct.
  pub record Owned (base : ℕ → Bool) (tokens : List ℕ) (h : H) : Type 0 where
    pub live_exactly : (u : ℕ) → host.live h u ≡ (elem u tokens || base u)
    pub disjoint : (u : ℕ) → elem u tokens ≡ true → base u ≡ false
    pub distinct : Distinct tokens

  module _ (laws : ExprLaws host) where
    pub live-delete_all :
        (ts : List ℕ) (h : H) (u : ℕ)
        → host.live (delete_all host ts h) u ≡ (if elem u ts then false else host.live h u)
    unfolding delete_all
    live-delete_all [] h u = refl
    live-delete_all (t ∷ ts) h u =
        ground (arith, live-delete_all ts (host.expr_delete t h) u, laws.deleted t h u)

    pub delete_all-Owned :
        (base : ℕ → Bool) (tokens : List ℕ) (h : H)
        → Owned base tokens h
        → Owned base [] (delete_all host tokens h)
    delete_all-Owned base tokens h o = record {
      live_exactly =
          λ u. ground (arith, live-delete_all tokens h u, o.live_exactly u, o.disjoint u);
      disjoint = λ u e. absurd (cc);
      distinct = tt;
    }

    -- A token that is given out.
    pub create-Owned :
        (base : ℕ → Bool) (tokens : List ℕ) (e : Bytes) (h : H)
        → is_ok (host.create_expression e h).0 ≡ true
        → Owned base tokens h
        → Owned base (tokens ++ (host.create_expression e h).1 ∷ []) (host.create_expression e h).2
    create-Owned base tokens e h given o = record {
      live_exactly =
          λ u. ground (arith, laws.created e h given u, o.live_exactly u, elem-snoc u t tokens);
      disjoint = λ u m. elim (Bool-cases (u == t)) [
        | inl e ↦ rw ((==_iff u t).0 e) unused
        | inr e ↦ o.disjoint u (ground (arith, elem-snoc u t tokens))
      ];
      distinct =
          Distinct-snoc t tokens (ground (arith, laws.fresh e h given, o.live_exactly t))
            o.distinct;
    }
      where
        t : ℕ
        t = (host.create_expression e h).1

        unused : base t ≡ false
        unused = ground (arith, laws.fresh e h given, o.live_exactly t)

    -- The same, for a token that is put between others.
    pub create_between-Owned :
        (base : ℕ → Bool) (xs ys : List ℕ) (e : Bytes) (h : H)
        → is_ok (host.create_expression e h).0 ≡ true
        → Owned base (xs ++ ys) h
        → Owned base (xs ++ (host.create_expression e h).1 ∷ ys) (host.create_expression e h).2
    create_between-Owned base xs ys e h given o = record {
      live_exactly =
          λ u. ground (arith, laws.created e h given u, o.live_exactly u, elem_between u t xs ys);
      disjoint = λ u m. elim (Bool-cases (u == t)) [
        | inl q ↦ rw ((==_iff u t).0 q) unused
        | inr q ↦ o.disjoint u (ground (arith, elem_between u t xs ys))
      ];
      distinct =
          Distinct-between t xs ys (ground (arith, laws.fresh e h given, o.live_exactly t))
            o.distinct;
    }
      where
        t : ℕ
        t = (host.create_expression e h).1

        unused : base t ≡ false
        unused = ground (arith, laws.fresh e h given, o.live_exactly t)

    pub refused-Owned :
        (base : ℕ → Bool) (tokens : List ℕ) (e : Bytes) (h : H)
        → is_ok (host.create_expression e h).0 ≡ false
        → Owned base tokens h
        → Owned base tokens (host.create_expression e h).2
    refused-Owned base tokens e h given o = record {
      live_exactly = λ u. laws.refused e h u given ∙ o.live_exactly u;
      disjoint = o.disjoint;
      distinct = o.distinct;
    }
