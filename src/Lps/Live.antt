-- ===== src/Lps/Live.antt =====
-- internal/lps/generator.go: customers that are only in the accounts' tables, asked from the bank's
-- service one by one. The workers run at the same time: the order in which their results arrive is an
-- argument, and a request that is cancelled meanwhile is left out.
use new_trs.Common.{true, ◌==◌, if◌then◌else◌, List, [], ◌∷◌, Option, none, some, Result, ok, ◌>>=◌}
use new_trs.Common.Text.{Text, codes, eq_text, contains}
use new_trs.Lps.Fields.{join, pipe, without, value_if, zeros, clean_alamat, normalize_dati_code}
use new_trs.Lps.Customers.{
  debtor_type_of, identity_type_of, or_else, individual_kind, management_debtor_types,
}

-- A decoded JSON value: the text of a string, and what fmt.Sprint prints of any other value.
mutual
  pub data Json : Type 0 where
    null : Json
    text : Text → Json
    printed : Text → Json
    object : Text → Members → Json
    array : Text → Items → Json

  pub data Members : Type 0 where
    no_members : Members
    member : Text → Json → Members → Members

  pub data Items : Type 0 where
    no_items : Items
    item : Json → Items → Items

-- A missing member is nil.
unfoldable pub get : Members → Text → Json
get no_members key = null
get (member name value rest) key = if eq_text name key then value else get rest key

unfoldable pub string_value : Json → Text
string_value null = []
string_value (text t) = t
string_value (printed t) = t
string_value (object t fields) = t
string_value (array t items) = t

unfoldable pub object_string : Json → Text → Text
object_string null key = []
object_string (text t) key = []
object_string (printed t) key = []
object_string (object t fields) key = string_value (get fields key)
object_string (array t items) key = []

abbrev pub members_of : Json → Members
members_of null = no_members
members_of (text t) = no_members
members_of (printed t) = no_members
members_of (object t fields) = fields
members_of (array t items) = no_members

unfoldable pub first_object : Json → Option Members
first_object null = none
first_object (text t) = none
first_object (printed t) = none
first_object (object t fields) = none
first_object (array t no_items) = none
first_object (array t (item value rest)) = some (members_of value)

-- strings.SplitN(text, " ", 2)[0].
unfoldable pub first_word : Text → Text
first_word [] = []
first_word (c ∷ s) = if c == 32 then [] else c ∷ first_word s

-- The name and the identity of the management of a customer that is no person.
unfoldable pub management_of : Option Members → Text × Text
management_of none = (codes "BAPAK", [])
management_of (some m) = (
  clean_alamat (string_value (get m (codes "nama"))),
  or_else true zeros (clean_alamat (string_value (get m (codes "noktp")))),
)

unfoldable pub live_fields : (Text → Result Text) → Members → List Text
live_fields debtors value =
    let of : Text → Text = λ key. string_value (get value key) in
    let individual = eq_text (of (codes "jenisnasabah")) individual_kind in
    let debtor_type =
      debtor_type_of debtors individual (of (codes "datauntuksid_golongandebitur"))
        (of (codes "noalt")) in
    let managed = contains debtor_type management_debtor_types in
    let management =
      if individual
      then ([], [])
      else management_of (first_object (get value (codes "datapengurusperusahaan"))) in
    codes "D"
    ∷ of (codes "id")
    ∷ of (codes "namanasabah")
    ∷ identity_type_of individual (of (codes "jenisidentitas"))
    ∷ (if managed then [] else or_else individual zeros (of (codes "perorangan_noktp")))
    ∷ or_else individual (codes "IBU KANDUNG")
        (clean_alamat (of (codes "perorangan_namaibukandung")))
    ∷ (if individual
        then without 45
            (first_word (object_string (get value (codes "dataktp_tgllahir")) (codes "date")))
        else [])
    ∷ value_if individual (of (codes "profilresiko_identitasnasabah")) []
    ∷ management.0
    ∷ value_if individual [] (codes "LN")
    ∷ or_else managed zeros management.1
    ∷ clean_alamat (of (codes "dataalamat_ktp_alamat1"))
    ∷ normalize_dati_code (of (codes "datauntuksid_dati2debitur"))
    ∷ value_if individual (codes "WNI") []
    ∷ clean_alamat (of (codes "dataalamat_rumah_nohp"))
    ∷ codes "1"
    ∷ codes "N"
    ∷ codes "20"
    ∷ debtor_type
    ∷ []

unfoldable pub build_live_dn : (Text → Result Text) → Members → Text
build_live_dn debtors value = join pipe (live_fields debtors value)

-- The CIFs that are needed, not seen before, each once.
unfoldable pub missing_cifs : List Text → List Text → List Text
missing_cifs seen [] = []
missing_cifs seen (cif ∷ rest) =
    let there = contains cif seen in
    let later = missing_cifs (if there then seen else cif ∷ seen) rest in
    if there then later else cif ∷ later

-- The lines in the order in which they arrive, or the first error.
unfoldable pub collect :
    (Text → Result Members) → (Text → Result Text) → List Text → Result (List Text)
collect get_cif debtors [] = ok []
collect get_cif debtors (cif ∷ rest) = do
  value ← get_cif cif
  lines ← collect get_cif debtors rest
  ok (build_live_dn debtors value ∷ lines)

unfoldable pub complete_missing_dn :
    (Text → Result Members)
    → (Text → Result Text)
    → (List Text → List Text)
    → List Text
    → List Text
    → Result (List Text)
complete_missing_dn get_cif debtors arrival seen needed =
    collect get_cif debtors (arrival (missing_cifs seen needed))
