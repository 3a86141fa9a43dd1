-- ===== src/Types/Label.antt =====
-- crates/atlas-types/src/lib.rs: `LabelId`, its constants, and the name that `Display` prints.
use Prim.Native.String.{String}
use atlas_hpc.Base.{
  ℕ, ◌≡◌, ◌↔◌, ap, Bool, true, ◌&&◌, leb, Eq, ◌==◌, nat_eq, nat_beq, nat_beq_iff, if◌then◌else◌,
}

pub record LabelId : Type 0 where
  pub id : ℕ

abbrev pub label : ℕ → LabelId
label n = record { id = n }

pub label_beq_iff : (a b : LabelId) → (nat_beq a.id b.id ≡ true) ↔ (a ≡ b)
label_beq_iff a b =
    (λ h. ap label ((nat_beq_iff a.id b.id).0 h), λ h. (nat_beq_iff a.id b.id).1 (ap (λ l. l.id) h))

instance abbrev pub label_eq : Eq LabelId
label_eq = record { beq = λ a b. nat_beq a.id b.id; beq_iff = label_beq_iff }

abbrev pub l_crude_shock : LabelId
l_crude_shock = label 1

abbrev pub l_rate_hike : LabelId
l_rate_hike = label 2

abbrev pub l_earnings_surprise : LabelId
l_earnings_surprise = label 3

abbrev pub l_geo_disruption : LabelId
l_geo_disruption = label 4

abbrev pub l_sec_filing : LabelId
l_sec_filing = label 5

abbrev pub l_macro_release : LabelId
l_macro_release = label 6

abbrev pub l_credit_event : LabelId
l_credit_event = label 7

abbrev pub l_m_and_a : LabelId
l_m_and_a = label 8

unfoldable pub is_valid : LabelId → Bool
is_valid l = leb 1 l.id && leb l.id 8

-- The `match` of `Display::fmt`.
unfoldable pub label_name : LabelId → String
label_name l =
    if l.id == 1
    then "L_CRUDE_SHOCK"
    else if l.id == 2
    then "L_RATE_HIKE"
    else if l.id == 3
    then "L_EARNINGS_SURPRISE"
    else if l.id == 4
    then "L_GEO_DISRUPTION"
    else if l.id == 5
    then "L_SEC_FILING"
    else if l.id == 6
    then "L_MACRO_RELEASE"
    else if l.id == 7
    then "L_CREDIT_EVENT"
    else if l.id == 8
    then "L_M_AND_A"
    else "L_UNKNOWN"
