-- ===== src/Stringified/Written.antt =====
-- A stringifier of targets, for tests in place of one that calls `JSON.stringify`: it writes an x before
-- each character and a dot at the end of each part, and its parser gives back what it wrote.
use dataform.Prelude.{◌≡◌, refl, ap, String, if◌then◌else◌}
use dataform.Stringified.{Stringifier}
use dataform.Stringified.Laws.{IsFaithful}
use dataform.Names.{is_dot}
use dataform.Proto.{Target}

abbrev written : String → String → String
written String.[] rest = String.◌∷◌ "." rest
written (String.◌∷◌ c s) rest = String.◌∷◌ "x" (String.◌∷◌ c (written s rest))

abbrev read : String → String × String
read String.[] = ("", "")
read (String.◌∷◌ mark String.[]) = ("", "")
read (String.◌∷◌ mark (String.◌∷◌ c s)) =
    let later = read s in
    if is_dot mark then ("", String.◌∷◌ c s) else (String.◌∷◌ c later.0, later.1)

read-written : (s rest : String) → read (written s rest) ≡ (s, rest)
unfolding is_dot
read-written String.[] String.[] = refl
read-written String.[] (String.◌∷◌ c rest) = refl
read-written (String.◌∷◌ c s) rest =
    ap (λ (p : String × String). (String.◌∷◌ c p.0, p.1)) (read-written s rest)

abbrev pub key : Stringifier Target
key = record {
  stringify = λ t. written t.database (written t.schema (written t.name ""));
  parse = λ text.
      let (database, more) = read text in
      let (schema, last) = read more in
      record { database = database; schema = schema; name = (read last).0 };
}

pub key-IsFaithful : IsFaithful key
key-IsFaithful t =
    rw
      (
        read-written t.database (written t.schema (written t.name "")),
        read-written t.schema (written t.name ""),
        read-written t.name "",
      )
      refl
