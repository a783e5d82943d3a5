-- ===== src/Lps/Customers.antt =====
-- internal/lps/generator.go: the customers' table and its lines of the report.
use new_trs.Common.{
  Bool, not, ◌&&◌, ◌||◌, if◌then◌else◌, List, [], ◌∷◌, map, Result, ok, err, ◌>>◌, ◌>>=◌,
}
use new_trs.Common.Text.{Text, codes, trim_space, eq_text, contains, is_empty}
use new_trs.Lps.Csv.{parse_table, index, require, value_at}
use new_trs.Lps.Codes.{is_valid_golongan_debitur}
use new_trs.Lps.Fields.{join, pipe, without, value_if, zeros, clean_alamat, normalize_dati_code}

abbrev pub dn_columns : List Text
dn_columns =
    codes "cif_no"
    ∷ codes "cif_alternate_no"
    ∷ codes "customer_type"
    ∷ codes "customer_name"
    ∷ codes "idtype"
    ∷ codes "identity_number"
    ∷ codes "mother_maiden_name"
    ∷ codes "birth_date"
    ∷ codes "tax_id"
    ∷ codes "management_name"
    ∷ codes "management_identity"
    ∷ codes "address1"
    ∷ codes "citydati2"
    ∷ codes "phone_no"
    ∷ codes "debtor_type"
    ∷ []

pub record Customer : Type 0 where
  pub cif : Text
  pub alternate_cif : Text
  pub kind : Text
  pub name : Text
  pub identity_type : Text
  pub identity_number : Text
  pub mother_name : Text
  pub birth_date : Text
  pub tax_id : Text
  pub management_name : Text
  pub management_identity : Text
  pub address : Text
  pub dati : Text
  pub phone : Text
  pub debtor_type : Text

unfoldable pub customer_of : (Text → Text) → Text → Customer
customer_of value cif = record {
  cif = cif;
  alternate_cif = value (codes "cif_alternate_no");
  kind = value (codes "customer_type");
  name = value (codes "customer_name");
  identity_type = value (codes "idtype");
  identity_number = value (codes "identity_number");
  mother_name = value (codes "mother_maiden_name");
  birth_date = value (codes "birth_date");
  tax_id = value (codes "tax_id");
  management_name = value (codes "management_name");
  management_identity = value (codes "management_identity");
  address = value (codes "address1");
  dati = value (codes "citydati2");
  phone = value (codes "phone_no");
  debtor_type = value (codes "debtor_type");
}

abbrev pub cell_of : List Text → List Text → Text → Text
cell_of header row column = value_at row (index header column)

abbrev pub cif_of : List Text → List Text → Text
cif_of header row = trim_space (cell_of header row (codes "cif_no"))

-- The rows with a CIF that is not there yet. The second list has the CIFs seen before.
unfoldable pub customers_of : List Text → List (List Text) → List Text → List Customer
customers_of header [] seen = []
customers_of header (row ∷ rest) seen =
    let cif = cif_of header row in
    let skipped = is_empty cif || contains cif seen in
    let later = customers_of header rest (if skipped then seen else cif ∷ seen) in
    if skipped then later else customer_of (cell_of header row) cif ∷ later

unfoldable pub cifs : List Customer → List Text
cifs customers = map (λ c. c.cif) customers

unfoldable pub parse_customers : Text → Result (List Customer × List Text)
parse_customers body = do
  table ← parse_table body
  require table.header dn_columns
  let customers = customers_of table.header table.rows []
  ok (customers, cifs customers)

abbrev pub management_debtor_types : List Text
management_debtor_types =
    codes "8139" ∷ codes "0070" ∷ codes "2090" ∷ codes "7174" ∷ codes "4120" ∷ codes "4599" ∷ []

abbrev pub identity_types : List Text
identity_types = codes "KTP" ∷ codes "PAS" ∷ codes "KTS" ∷ []

abbrev pub individual_kind : Text
individual_kind = codes "Perorangan"

-- What the repository of debtor types answers for the alternate CIF, if it is of use.
unfoldable pub fallback_type : Result Text → Text
fallback_type (err e) = codes "4599"
fallback_type (ok t) = if is_empty t || eq_text t (codes "0002") then codes "4599" else t

unfoldable pub debtor_type_of : (Text → Result Text) → Bool → Text → Text → Text
debtor_type_of debtors individual own alternate =
    if individual
    then codes "9002"
    else if is_valid_golongan_debitur own
    then own
    else fallback_type (debtors alternate)

unfoldable pub identity_type_of : Bool → Text → Text
identity_type_of individual given =
    if individual then (if contains given identity_types then given else codes "LN") else []

-- With the value for an empty text.
abbrev pub or_else : Bool → Text → Text → Text
or_else needed fallback t = if needed && is_empty t then fallback else t

unfoldable pub dn_fields : (Text → Result Text) → Customer → List Text
dn_fields debtors value =
    let individual = eq_text (trim_space value.kind) individual_kind in
    let debtor_type =
      debtor_type_of debtors individual (trim_space value.debtor_type) value.alternate_cif in
    let managed = contains debtor_type management_debtor_types in
    let identity = or_else (not individual) zeros (clean_alamat value.management_identity) in
    let dati = normalize_dati_code value.dati in
    let number = without 32 (or_else individual zeros (trim_space value.identity_number)) in
    codes "D"
    ∷ value.cif
    ∷ clean_alamat value.name
    ∷ identity_type_of individual (trim_space value.identity_type)
    ∷ (if managed then [] else number)
    ∷ or_else individual (codes "IBU KANDUNG") (clean_alamat (trim_space value.mother_name))
    ∷ (if individual then without 45 value.birth_date else [])
    ∷ value_if individual value.tax_id []
    ∷ or_else (not individual) (codes "BAPAK") (trim_space value.management_name)
    ∷ value_if individual [] (codes "LN")
    ∷ or_else managed zeros identity
    ∷ clean_alamat value.address
    ∷ value_if (is_empty dati) (codes "0000") dati
    ∷ value_if individual (codes "WNI") []
    ∷ clean_alamat value.phone
    ∷ codes "1"
    ∷ codes "N"
    ∷ codes "20"
    ∷ debtor_type
    ∷ []

unfoldable pub build_dn : (Text → Result Text) → List Customer → List Text
build_dn debtors customers = map (λ c. join pipe (dn_fields debtors c)) customers
