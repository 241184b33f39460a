-- ===== src/PgBouncer/Config/Lines.antt =====
-- The sections that `parse_ini` builds, by the lines of the file.
use rama_pg.Bytes.{Bytes, eqb}
use rama_pg.Bytes.Map.{lookup, insert, lookup-insert, lookup-insert_other}
use rama_pg.Bytes.Search.{eqb_refl, eqb_sound}
use rama_pg.PgBouncer.Config.{
  Line, skipped, heading, entry, Ini, Section, section_of, take_line, take_lines, lines, read_line,
  parse_ini,
}
use rama_pg.Startup.{or_else}
use rama_pg.Prelude.{
  List, [], ◌∷◌, map, Option, none, some, ◌&&◌, if◌then◌else◌, ◌≡◌, refl, sym, ap, ◌∙◌, subst,
  Bool-cases, inl, inr,
}

-- The value that the last entry with this key has in this section, where the lines before stand in
-- the section `current`.
abbrev pub last_value : Bytes → Bytes → Bytes → List Line → Option Bytes
last_value section key current [] = none
last_value section key current (skipped ∷ ls) = last_value section key current ls
last_value section key current (heading name ∷ ls) = last_value section key name ls
last_value section key current (entry k v ∷ ls) =
    or_else (last_value section key current ls)
      (if eqb current section && eqb k key then some v else none)

abbrev value : Bytes → Bytes → List (Bytes × Section) → Option Bytes
value section key sections = lookup key (section_of section sections)

value-heading :
    (section key name : Bytes) (sections : List (Bytes × Section))
    → value section key (insert name (section_of name sections) sections)
      ≡ value section key sections
value-heading section key name sections = elim (Bool-cases (eqb name section)) [
  | inl same ↦
      subst
        (λ x. value x key (insert name (section_of name sections) sections) ≡ value x key sections)
        (eqb_sound name section same)
        (rw (lookup-insert name (section_of name sections) sections) refl)
  | inr other ↦ rw (lookup-insert_other name section (section_of name sections) sections other) refl
]

value-entry :
    (section key current k v : Bytes) (sections : List (Bytes × Section))
    → value section key (insert current (insert k v (section_of current sections)) sections)
      ≡ or_else
          (if eqb current section && eqb k key then some v else none)
          (value section key sections)
value-entry section key current k v sections =
    let new = insert k v (section_of current sections) in
    elim (Bool-cases (eqb current section)) [
      | inr other ↦ rw (other, lookup-insert_other current section new sections other) refl
      | inl same ↦
          subst
            (λ x.
              value x key (insert current new sections)
              ≡ or_else (if eqb current x && eqb k key then some v else none)
                  (value x key sections))
            (eqb_sound current section same)
            (elim (Bool-cases (eqb k key)) [
              | inl e ↦
                  subst
                    (λ x.
                      value current x (insert current new sections)
                      ≡ or_else (if eqb current current && eqb k x then some v else none)
                          (value current x sections))
                    (eqb_sound k key e)
                    (rw
                      (
                        eqb_refl current,
                        eqb_refl k,
                        lookup-insert current new sections,
                        lookup-insert k v (section_of current sections),
                      )
                      refl)
              | inr e ↦
                  rw
                    (
                      eqb_refl current,
                      e,
                      lookup-insert current new sections,
                      lookup-insert_other k key v (section_of current sections) e,
                    )
                    refl
            ])
    ]

or_else_assoc {ℓ} :
    {A : Type ℓ} (a b c : Option A) → or_else (or_else a b) c ≡ or_else a (or_else b c)
or_else_assoc none b c = refl
or_else_assoc (some a) b c = refl

value-take_lines :
    (section key : Bytes) (ini : Ini) (ls : List Line)
    → value section key (take_lines ini ls).sections
      ≡ or_else (last_value section key ini.current ls) (value section key ini.sections)
unfolding take_lines take_line
value-take_lines section key ini [] = refl
value-take_lines section key ini (skipped ∷ ls) = value-take_lines section key ini ls
value-take_lines section key ini (heading name ∷ ls) =
    value-take_lines section key (take_line ini (heading name)) ls
    ∙ ap (or_else (last_value section key name ls)) (value-heading section key name ini.sections)
value-take_lines section key ini (entry k v ∷ ls) =
    value-take_lines section key (take_line ini (entry k v)) ls
    ∙ ap (or_else (last_value section key ini.current ls))
        (value-entry section key ini.current k v ini.sections)
    ∙ sym (or_else_assoc (last_value section key ini.current ls) _ _)

abbrev pub last_in : Bytes → Bytes → Bytes → Option Bytes
last_in text section key = last_value section key [] (map read_line (lines text))

or_else-none {ℓ} : {A : Type ℓ} (a : Option A) → or_else a none ≡ a
or_else-none none = refl
or_else-none (some a) = refl

pub value-parse_ini :
    (text section key : Bytes) → value section key (parse_ini text) ≡ last_in text section key
unfolding parse_ini
value-parse_ini text section key =
    value-take_lines section key (record { sections = []; current = [] })
      (map read_line (lines text))
    ∙ or_else-none _
