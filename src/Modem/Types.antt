-- ===== src/Modem/Types.antt =====
-- services/modem_access/mod.rs: the modem types, and the state of registration in the network.
use uswarm_unitctl.Base.{
  ℕ, Option, none, some, List, [], ◌∷◌, Text, codes, contains, ◌==◌, if◌then◌else◌,
}

pub data ModemType : Type 0 where
  simcom7600 quectel_em12 quectel_em06e quectel_em06gl : ModemType

-- `Display for ModemType`
unfoldable pub show_modem_type : ModemType → Text
show_modem_type simcom7600 = codes "SIMCOM_7600"
show_modem_type quectel_em12 = codes "QUECTEL_EM12"
show_modem_type quectel_em06e = codes "QUECTEL_EM06E"
show_modem_type quectel_em06gl = codes "QUECTEL_EM06GL"

abbrev pub modem_identifiers : List (Text × ModemType)
modem_identifiers =
    (codes "SIMCOM_SIM7600G-H", simcom7600)
    ∷ (codes "EM12", quectel_em12)
    ∷ (codes "EM060K-GL", quectel_em06gl)
    ∷ (codes "EM06", quectel_em06e)
    ∷ []

-- The loop over the identifiers: the first that the model contains decides.
unfoldable pub first_identified : List (Text × ModemType) → Text → Option ModemType
first_identified [] model = none
first_identified ((identifier, modem_type) ∷ rest) model =
    let later = first_identified rest model in
    if contains model identifier then some modem_type else later

unfoldable pub detect_modem_type : Text → Option ModemType
unfolding first_identified
detect_modem_type model = first_identified modem_identifiers model

pub data NetworkRegistration : Type 0 where
  not_registered registered_home searching denied unknown registered_roaming : NetworkRegistration

-- `NetworkRegistration::from_code`
unfoldable pub from_code : ℕ → NetworkRegistration
from_code code =
    if code == 0
    then not_registered
    else if code == 1
    then registered_home
    else if code == 2
    then searching
    else if code == 3
    then denied
    else if code == 5
    then registered_roaming
    else unknown
