-- ===== src/Startup/Migrations/Statements.antt =====
-- A statement of the migrations takes nothing away, and passes without effect once it has run.
use otelview_postgres.Common.{
  ◌≡◌, refl, sym, ap, subst, ◌∙◌, ◌⊎◌, Bool, true, false, Option, none, some, List, [], ◌∷◌, Str,
  text, Result, ok, err, Error, >>=-eq-ok, ok-injective, Bool-cases, inl, inr, Bytes-discrete,
  arith, if◌then◌else◌,
}
use otelview_postgres.Startup.Migrations.{
  Relation, table, index, Catalog, Support, unavailable, forbidden, allowed, Statement,
  create_table, create_index, trigram_index, relation_named, unless_present, has_columns, index_on,
  add_index, create_extension, index_if_trigram, run_statement,
}

-- Every relation of the one is in the other as it was, and so is the extension, which can only have come where it may be created.
pub record Extends (support : Support) (c d : Catalog) : Type 0 where
  pub relation :
      (name : Str) (r : Relation)
      → relation_named name c.relations ≡ some r
      → relation_named name d.relations ≡ some r
  pub trigram : c.trigram ≡ true → d.trigram ≡ true
  pub refused : support ≡ forbidden → d.trigram ≡ c.trigram

module _ (support : Support) where
  pub Extends-refl : (c : Catalog) → Extends support c c
  Extends-refl c = record { relation = λ name r h. h; trigram = λ h. h; refused = λ h. refl }

  pub Extends-trans :
      (a b c : Catalog) → Extends support a b → Extends support b c → Extends support a c
  Extends-trans a b c h k = record {
    relation = λ name r e. k.relation name r (h.relation name r e);
    trigram = λ e. k.trigram (h.trigram e);
    refused = λ e. k.refused e ∙ h.refused e;
  }

  named_other :
      (n name : Str) (r s : Relation) (rs : List (Str × Relation))
      → relation_named name rs ≡ none
      → relation_named n rs ≡ some s
      → relation_named n ((name, r) ∷ rs) ≡ some s
  named_other n name r s rs h e = elim (Bytes-discrete n name) [
    | yes p ↦ absurd (ground (arith, ap (λ m. relation_named m rs) p, h, e))
    | no p ↦ ground (arith, p, e)
  ]

  Extends-unless_present :
      (name : Str) (r : Relation) (c : Catalog) (o : Option Relation)
      → relation_named name c.relations ≡ o
      → Extends support c (unless_present o name r c)
  Extends-unless_present name r c (some old) h = Extends-refl c
  Extends-unless_present name r c none h = record {
    relation = λ n s e. named_other n name r s c.relations h e;
    trigram = λ e. e;
    refused = λ e. refl;
  }

  Extends-index_on :
      (name on : Str) (columns : List Str) (c c' : Catalog) (o : Option Relation)
      → index_on o name on columns c ≡ ok c'
      → Extends support c c'
  Extends-index_on name on columns c c' none e = absurd (cc)
  Extends-index_on name on columns c c' (some (index _ _)) e = absurd (cc)
  Extends-index_on name on columns c c' (some (table given)) e =
      elim (Bool-cases (has_columns given columns)) [
        | inl t ↦ subst (Extends support c) (ok-injective (rw t at e)) (
            Extends-unless_present name (index on columns) c (relation_named name c.relations) refl)
        | inr t ↦ absurd (ground (arith, rw t at e))
      ]

  Extends-add_index :
      (name on : Str) (columns : List Str) (c c' : Catalog)
      → add_index name on columns c ≡ ok c'
      → Extends support c c'
  Extends-add_index name on columns c c' e =
      Extends-index_on name on columns c c' (relation_named on c.relations) e

  named_first :
      (name : Str) (r : Relation) (rs : List (Str × Relation))
      → relation_named name ((name, r) ∷ rs) ≡ some r
  named_first name r rs = elim (Bytes-discrete name name) [
    | yes p ↦ ground (arith, p)
    | no p ↦ absurd (p refl)
  ]

  named_after :
      (name : Str) (r : Relation) (c : Catalog) (o : Option Relation)
      → relation_named name c.relations ≡ o
      → (s : Relation) × (relation_named name (unless_present o name r c).relations ≡ some s)
  named_after name r c (some old) h = (old, h)
  named_after name r c none h = (r, named_first name r c.relations)

  unless_present_again :
      (name : Str) (r : Relation) (c d : Catalog)
      → Extends support (unless_present (relation_named name c.relations) name r c) d
      → unless_present (relation_named name d.relations) name r d ≡ d
  unless_present_again name r c d x =
      let (s, e) = named_after name r c (relation_named name c.relations) refl in
      rw (x.relation name s e) refl

  index_again :
      (name on : Str) (columns : List Str) (c c' d : Catalog) (o : Option Relation)
      → relation_named on c.relations ≡ o
      → index_on o name on columns c ≡ ok c'
      → Extends support c' d
      → add_index name on columns d ≡ ok d
  index_again name on columns c c' d none h e x = absurd (cc)
  index_again name on columns c c' d (some (index _ _)) h e x = absurd (cc)
  index_again name on columns c c' d (some (table given)) h e x =
      elim (Bool-cases (has_columns given columns)) [
        | inl t ↦
            let made = ok-injective (rw t at e) in
            let whole =
              Extends-trans c c' d (Extends-index_on name on columns c c' (some (table given)) e)
                x in
            rw (whole.relation on (table given) h, t)
              (ap ok (
                unless_present_again name (index on columns) c d
                  (subst (λ y. Extends support y d) (sym made) x)))
        | inr t ↦ absurd (ground (arith, rw t at e))
      ]

-- A test that has passed.
passed :
    (b : Bool) (c c' : Catalog) (x : Error)
    → (if b then ok c else err x) ≡ ok c'
    → (b ≡ true) × (c ≡ c')
passed true c c' x e = (refl, ok-injective e)
passed false c c' x e = absurd (cc)

Extends-create_extension :
    (support : Support) (c c' : Catalog) → create_extension support c ≡ ok c' → Extends support c c'
Extends-create_extension unavailable c c' e =
    let (there, same) = passed c.trigram c c' _ e in
    subst (Extends unavailable c) same (Extends-refl unavailable c)
Extends-create_extension forbidden c c' e =
    subst (Extends forbidden c) (ok-injective e) (Extends-refl forbidden c)
Extends-create_extension allowed c c' e =
    subst (Extends allowed c) (ok-injective e)
      (record { relation = λ name r h. h; trigram = λ h. refl; refused = λ h. absurd (cc) })

-- Once the extension is there, or where it may not be created, nothing more comes of it.
create_extension_again :
    (support : Support) (c c' d : Catalog)
    → create_extension support c ≡ ok c'
    → Extends support c' d
    → create_extension support d ≡ ok d
create_extension_again unavailable c c' d e x =
    let (there, same) = passed c.trigram c c' _ e in
    rw (x.trigram (subst (λ y. y.trigram ≡ true) same there)) refl
create_extension_again forbidden c c' d e x = refl
create_extension_again allowed c c' d e x =
    let there : d.trigram ≡ true =
      x.trigram (subst (λ y. y.trigram ≡ true) (ok-injective e) refl) in
    ground (arith, there)

-- Where the extension is not there after the statement, the role may not create it.
pub refused_only :
    (support : Support) (c c' : Catalog)
    → create_extension support c ≡ ok c'
    → c'.trigram ≡ false
    → support ≡ forbidden
refused_only unavailable c c' e f =
    let (there, same) = passed c.trigram c c' _ e in
    absurd (ground (arith, there, ap (λ (y : Catalog). y.trigram) same, f))
refused_only forbidden c c' e f = refl
refused_only allowed c c' e f =
    absurd (ground (arith, ap (λ (y : Catalog). y.trigram) (ok-injective e), f))

pub branches :
    (b : Bool) (f g : Result Catalog) (c' : Catalog)
    → (if b then f else g) ≡ ok c'
    → ((b ≡ true) × (f ≡ ok c')) ⊎ ((b ≡ false) × (g ≡ ok c'))
branches true f g c' e = inl (refl, e)
branches false f g c' e = inr (refl, e)

on_true : (b : Bool) (f g r : Result Catalog) → b ≡ true → f ≡ r → (if b then f else g) ≡ r
on_true true f g r h e = e
on_true false f g r h e = absurd (cc)

on_false : (b : Bool) (f g : Result Catalog) → b ≡ false → (if b then f else g) ≡ g
on_false true f g h = absurd (cc)
on_false false f g h = refl

module _ (support : Support) where
  pub Extends-index_if_trigram :
      (c c' : Catalog) → index_if_trigram c ≡ ok c' → Extends support c c'
  Extends-index_if_trigram c c' e = elim (branches c.trigram _ _ c' e) [
    | inl (t, f) ↦ Extends-add_index support _ _ _ c c' f
    | inr (t, g) ↦ subst (Extends support c) (ok-injective g) (Extends-refl support c)
  ]

  index_if_trigram_again :
      (c c' d : Catalog)
      → (c.trigram ≡ false → support ≡ forbidden)
      → index_if_trigram c ≡ ok c'
      → Extends support c' d
      → index_if_trigram d ≡ ok d
  index_if_trigram_again c c' d k e x = elim (branches c.trigram _ _ c' e) [
    | inl (t, f) ↦
        on_true d.trigram _ _ (ok d) (x.trigram ((Extends-index_if_trigram c c' e).trigram t)) (
          index_again support (text "logs_body_trgm_idx") (text "logs") (text "body_text" ∷ []) c c'
            d (relation_named (text "logs") c.relations) refl f x)
    | inr (t, g) ↦
        on_false d.trigram _ _
          (x.refused (k t) ∙ ap (λ (y : Catalog). y.trigram) (sym (ok-injective g)) ∙ t)
  ]

  pub run_statement_again :
      (s : Statement) (c c' d : Catalog)
      → run_statement support s c ≡ ok c'
      → Extends support c' d
      → run_statement support s d ≡ ok d
  unfolding run_statement
  run_statement_again (create_table name columns) c c' d e x = ap ok (
      unless_present_again support name (table columns) c d
        (subst (λ y. Extends support y d) (sym (ok-injective e)) x))
  run_statement_again (create_index name on columns) c c' d e x =
      index_again support name on columns c c' d (relation_named on c.relations) refl e x
  run_statement_again trigram_index c c' d e x =
      let (mid, first, rest) = >>=-eq-ok (create_extension support c) index_if_trigram e in
      let after = Extends-trans support mid c' d (Extends-index_if_trigram mid c' rest) x in
      rw (create_extension_again support c mid d first after)
        (index_if_trigram_again mid c' d (refused_only support c mid first) rest x)

  pub Extends-run_statement :
      (s : Statement) (c c' : Catalog) → run_statement support s c ≡ ok c' → Extends support c c'
  unfolding run_statement
  Extends-run_statement (create_table name columns) c c' e =
      subst (Extends support c) (ok-injective e) (
        Extends-unless_present support name (table columns) c (relation_named name c.relations)
          refl)
  Extends-run_statement (create_index name on columns) c c' e =
      Extends-add_index support name on columns c c' e
  Extends-run_statement trigram_index c c' e =
      let (mid, first, rest) = >>=-eq-ok (create_extension support c) index_if_trigram e in
      Extends-trans support c mid c' (Extends-create_extension support c mid first)
        (Extends-index_if_trigram mid c' rest)
