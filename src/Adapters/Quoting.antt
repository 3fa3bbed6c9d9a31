-- ===== src/Adapters/Quoting.antt =====
-- core/adapters/base.ts and sqldatawarehouse.ts: what `sqlString` writes is read back as a literal.
use Prim.Native.Char.{Char, code}
use Prim.Native.String
use text.Mathlib.TextLemmas.{nil-append, cons-append, append-nil, append_assoc}
use dataform.Prelude.{
  String, Bool, true, false, ◌≡◌, refl, ap, ◌∙◌, inl, inr, Bool-cases, [], ◌∷◌, Option, none, some,
  if◌then◌else◌, nat_eq, arith,
}
use dataform.Prelude.Text.{template}
use dataform.Adapters.{escape_with, sql_string}
use dataform.Adapters.SqlDataWarehouse

-- A character put before the contents that are read.
abbrev pub push : Char → Option (String × String) → Option (String × String)
push c none = none
push c (some (contents, rest)) = some (String.◌∷◌ c contents, rest)

-- A literal after its opening quote, where a backslash takes the next character as it is.
pub read_escaped : Bool → String → Option (String × String)
read_escaped after_escape String.[] = none
read_escaped true (String.◌∷◌ c s) = push c (read_escaped false s)
read_escaped false (String.◌∷◌ c s) =
    let escape = read_escaped true s in
    let plain = push c (read_escaped false s) in
    if nat_eq (code c) b'\'' then some ("", s) else if nat_eq (code c) b'\\' then escape else plain

escape : String → String
escape s = escape_with "\\" b'\'' (escape_with "\\" b'\\' s)

escape_backslash :
    (c : Char) (s : String)
    → nat_eq (code c) b'\\' ≡ true
    → escape (String.◌∷◌ c s) ≡ String.◌∷◌ "\\" (String.◌∷◌ c (escape s))
unfolding escape escape_with
escape_backslash c s e = ground arith

escape_quote :
    (c : Char) (s : String)
    → nat_eq (code c) b'\'' ≡ true
    → escape (String.◌∷◌ c s) ≡ String.◌∷◌ "\\" (String.◌∷◌ c (escape s))
unfolding escape escape_with
escape_quote c s e = ground arith

escape_plain :
    (c : Char) (s : String)
    → nat_eq (code c) b'\\' ≡ false
    → nat_eq (code c) b'\'' ≡ false
    → escape (String.◌∷◌ c s) ≡ String.◌∷◌ c (escape s)
unfolding escape escape_with
escape_plain c s e f = ground arith

read_escaped-escape :
    (s rest : String)
    → read_escaped false (String.◌++◌ (escape s) (String.◌∷◌ "'" rest)) ≡ some (s, rest)
unfolding read_escaped
read_escaped-escape String.[] rest = unfold escape escape_with in rw nil-append refl
read_escaped-escape (String.◌∷◌ c s) rest =
    let ih = read_escaped-escape s rest in
    elim (Bool-cases (nat_eq (code c) b'\\')) [
      | inl e ↦ rw (escape_backslash c s e, cons-append, cons-append) (ap (push c) ih)
      | inr e ↦ elim (Bool-cases (nat_eq (code c) b'\'')) [
        | inl f ↦ rw (escape_quote c s f, cons-append, cons-append) (ap (push c) ih)
        | inr f ↦ rw (escape_plain c s e f, cons-append) (rw (f, e) (ap (push c) ih))
      ]
    ]

-- A literal after its opening quote, where two quotes stand for one.
pub read_doubled : Bool → String → Option (String × String)
read_doubled true String.[] = some ("", "")
read_doubled true (String.◌∷◌ c s) =
    let again = push c (read_doubled false s) in
    if nat_eq (code c) b'\'' then again else some ("", String.◌∷◌ c s)
read_doubled false String.[] = none
read_doubled false (String.◌∷◌ c s) =
    let quote = read_doubled true s in
    let plain = push c (read_doubled false s) in if nat_eq (code c) b'\'' then quote else plain

abbrev pub begins_with_quote : String → Bool
begins_with_quote String.[] = false
begins_with_quote (String.◌∷◌ c s) = nat_eq (code c) b'\''

double : String → String
double s = escape_with "'" b'\'' s

read_doubled_end :
    (rest : String) → begins_with_quote rest ≡ false → read_doubled true rest ≡ some ("", rest)
unfolding read_doubled
read_doubled_end String.[] h = refl
read_doubled_end (String.◌∷◌ c s) h = rw h refl

double_quote :
    (c : Char) (s : String)
    → nat_eq (code c) b'\'' ≡ true
    → double (String.◌∷◌ c s) ≡ String.◌∷◌ "'" (String.◌∷◌ c (double s))
unfolding double escape_with
double_quote c s e = ground arith

double_plain :
    (c : Char) (s : String)
    → nat_eq (code c) b'\'' ≡ false
    → double (String.◌∷◌ c s) ≡ String.◌∷◌ c (double s)
unfolding double escape_with
double_plain c s e = ground arith

read_doubled-double :
    (s rest : String)
    → begins_with_quote rest ≡ false
    → read_doubled false (String.◌++◌ (double s) (String.◌∷◌ "'" rest)) ≡ some (s, rest)
unfolding read_doubled
read_doubled-double String.[] rest h =
    unfold double escape_with in rw nil-append (read_doubled_end rest h)
read_doubled-double (String.◌∷◌ c s) rest h =
    let ih = read_doubled-double s rest h in
    elim (Bool-cases (nat_eq (code c) b'\'')) [
      | inl e ↦ rw (double_quote c s e, cons-append, cons-append) (rw e (ap (push c) ih))
      | inr e ↦ rw (double_plain c s e, cons-append) (rw e (ap (push c) ih))
    ]

-- A whole literal, by the reader of what follows its opening quote.
pub read_literal : (Bool → String → Option (String × String)) → String → Option (String × String)
read_literal read String.[] = none
read_literal read (String.◌∷◌ c s) = if nat_eq (code c) b'\'' then read false s else none

quote_append : (s : String) → String.◌++◌ "'" s ≡ String.◌∷◌ "'" s
quote_append s = rw (cons-append, nil-append) refl

quoted : String → String → String
quoted contents rest = String.◌++◌ (template ("'" ∷ contents ∷ "'" ∷ [])) rest

quoted_lem :
    (contents rest : String)
    → quoted contents rest ≡ String.◌∷◌ "'" (String.◌++◌ contents (String.◌∷◌ "'" rest))
unfolding quoted template
quoted_lem contents rest = simp append-nil (simp append_assoc (simp quote_append))

-- What `sqlString` writes, with whatever follows it but a quote, is read as the literal of the string:
-- with backslashes as escapes for the base class, and with doubled quotes for SQL Data Warehouse.
pub read_literal-sql_string :
    (s rest : String)
    → begins_with_quote rest ≡ false
    → (read_literal read_escaped (String.◌++◌ (sql_string s) rest) ≡ some (s, rest))
      × (read_literal read_doubled (String.◌++◌ (SqlDataWarehouse.quote s) rest) ≡ some (s, rest))
unfolding sql_string SqlDataWarehouse.quote read_literal quoted escape double
read_literal-sql_string s rest h = (
  ap (read_literal read_escaped) (quoted_lem (escape s) rest) ∙ read_escaped-escape s rest,
  ap (read_literal read_doubled) (quoted_lem (double s) rest) ∙ read_doubled-double s rest h,
)
