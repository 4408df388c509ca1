-- ===== src/Startup/Migrations/Contents.antt =====
-- What the files of migrations/ ask for by name, and that running them gives it.
use otelview_postgres.Common.{
  ◌≡◌, refl, sym, ◌∙◌, Option, none, some, ite, List, [], ◌∷◌, Str, text, ok, >>=-eq-ok,
  ok-injective, arith, ap, Bool, Bool-cases, inl, inr, Bytes-discrete, if◌then◌else◌,
}
use otelview_postgres.Startup.Migrations.{
  Relation, table, index, Catalog, Support, unavailable, forbidden, allowed, Statement,
  create_table, create_index, trigram_index, relation_named, run_statement, unless_present,
  index_on, has_columns, create_extension, index_if_trigram,
}
use otelview_postgres.Startup.Migrations.Statements.{
  Extends, Extends-trans, branches, refused_only, Extends-index_if_trigram,
}

-- What a name stands for, unless it stood for something before.
abbrev pub or_before : Option Relation → Option Relation → Option Relation
or_before (some old) new = some old
or_before none new = new

-- A relation under the name, if that is the one asked for.
abbrev if_named : Str → Str → Relation → Option Relation
if_named n name r = ite (Bytes-discrete n name) (some r) none

-- What a statement asks for under a name, where the extension is there or not.
abbrev pub asked : Bool → Str → Statement → Option Relation
asked extension n (create_table name columns) = if_named n name (table columns)
asked extension n (create_index name on columns) = if_named n name (index on columns)
asked extension n trigram_index =
    if extension
    then if_named n (text "logs_body_trgm_idx") (index (text "logs") (text "body_text" ∷ []))
    else none

abbrev pub asked_by : Bool → Str → List Statement → Option Relation
asked_by extension n [] = none
asked_by extension n (s ∷ ss) = or_before (asked extension n s) (asked_by extension n ss)

abbrev pub asked_in : Bool → Str → List (Str × List Statement) → Option Relation
asked_in extension n [] = none
asked_in extension n ((file, ss) ∷ files) =
    or_before (asked_by extension n ss) (asked_in extension n files)

pub or_before-none : (o : Option Relation) → o ≡ or_before o none
or_before-none none = refl
or_before-none (some r) = refl

pub or_before_assoc :
    (a b c : Option Relation) → or_before (or_before a b) c ≡ or_before a (or_before b c)
or_before_assoc none b c = refl
or_before_assoc (some r) b c = refl

named-unless_present :
    (n name : Str) (r : Relation) (c : Catalog) (o : Option Relation)
    → relation_named name c.relations ≡ o
    → relation_named n (unless_present o name r c).relations
      ≡ or_before (relation_named n c.relations) (if_named n name r)
named-unless_present n name r c (some old) h = elim (Bytes-discrete n name) [
  | yes p ↦
      let here : relation_named n c.relations ≡ some old =
        ap (λ m. relation_named m c.relations) p ∙ h in
      rw here refl
  | no p ↦ ground (arith, p, or_before-none (relation_named n c.relations))
]
named-unless_present n name r c none h = elim (Bytes-discrete n name) [
  | yes p ↦
      let here : relation_named n c.relations ≡ none =
        ap (λ m. relation_named m c.relations) p ∙ h in
      rw here refl
  | no p ↦ ground (arith, p, or_before-none (relation_named n c.relations))
]

named-index_on :
    (n name on : Str) (columns : List Str) (c c' : Catalog) (o : Option Relation)
    → index_on o name on columns c ≡ ok c'
    → relation_named n c'.relations
      ≡ or_before (relation_named n c.relations) (if_named n name (index on columns))
named-index_on n name on columns c c' none e = absurd (cc)
named-index_on n name on columns c c' (some (index _ _)) e = absurd (cc)
named-index_on n name on columns c c' (some (table given)) e =
    elim (Bool-cases (has_columns given columns)) [
      | inl t ↦
          ap (λ (y : Catalog). relation_named n y.relations) (sym (ok-injective (rw t at e)))
          ∙ named-unless_present n name (index on columns) c (relation_named name c.relations) refl
      | inr t ↦ absurd (ground (arith, rw t at e))
    ]

relations-create_extension :
    (support : Support) (c c' : Catalog)
    → create_extension support c ≡ ok c'
    → c'.relations ≡ c.relations
relations-create_extension unavailable c c' e = elim (Bool-cases c.trigram) [
  | inl t ↦ ap (λ (y : Catalog). y.relations) (sym (ok-injective (rw t at e)))
  | inr t ↦ absurd (ground (arith, rw t at e))
]
relations-create_extension forbidden c c' e =
    ap (λ (y : Catalog). y.relations) (sym (ok-injective e))
relations-create_extension allowed c c' e = ap (λ (y : Catalog). y.relations) (sym (ok-injective e))

named-index_if_trigram :
    (n : Str) (c c' : Catalog)
    → index_if_trigram c ≡ ok c'
    → relation_named n c'.relations
      ≡ or_before (relation_named n c.relations) (asked c.trigram n trigram_index)
named-index_if_trigram n c c' e = elim (branches c.trigram _ _ c' e) [
  | inl (t, f) ↦ rw t (
      named-index_on n (text "logs_body_trgm_idx") (text "logs") (text "body_text" ∷ []) c c'
        (relation_named (text "logs") c.relations) f)
  | inr (t, g) ↦ rw t (
      ap (λ (y : Catalog). relation_named n y.relations) (sym (ok-injective g))
      ∙ or_before-none (relation_named n c.relations))
]

-- The extension that a statement finds is there to the end.
same_to_the_end :
    (support : Support) (c mid d : Catalog)
    → create_extension support c ≡ ok mid
    → Extends support mid d
    → mid.trigram ≡ d.trigram
same_to_the_end support c mid d first x = elim (Bool-cases mid.trigram) [
  | inl t ↦ t ∙ sym (x.trigram t)
  | inr f ↦ sym (x.refused (refused_only support c mid first f))
]

-- After a statement a name stands for what it stood for, or for what the statement asks for.
pub named-run_statement :
    (support : Support) (n : Str) (s : Statement) (c c' d : Catalog)
    → run_statement support s c ≡ ok c'
    → Extends support c' d
    → relation_named n c'.relations ≡ or_before (relation_named n c.relations) (asked d.trigram n s)
unfolding run_statement
named-run_statement support n (create_table name columns) c c' d e x =
    ap (λ (y : Catalog). relation_named n y.relations) (sym (ok-injective e))
    ∙ named-unless_present n name (table columns) c (relation_named name c.relations) refl
named-run_statement support n (create_index name on columns) c c' d e x =
    named-index_on n name on columns c c' (relation_named on c.relations) e
named-run_statement support n trigram_index c c' d e x =
    let (mid, first, rest) = >>=-eq-ok (create_extension support c) index_if_trigram e in
    let after = Extends-trans support mid c' d (Extends-index_if_trigram support mid c' rest) x in
    named-index_if_trigram n mid c' rest
    ∙ ap (λ b. or_before (relation_named n mid.relations) (asked b n trigram_index))
        (same_to_the_end support c mid d first after)
    ∙ ap (λ l. or_before (relation_named n l) (asked d.trigram n trigram_index))
        (relations-create_extension support c mid first)
