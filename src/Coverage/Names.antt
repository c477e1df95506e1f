-- ===== src/Coverage/Names.antt =====
-- lib.rs, multifuzz.rs and ember.rs: the names of the binaries, and the order of their plots.
pub mod Exploits
use multi_fuzz_benchmarks.Prelude.{
  ℕ, suc, ◌-◌, ◌^◌, Bool, true, false, Option, none, some, List, [], ◌∷◌, ◌++◌, Text, codes, ◌==◌,
  text_eq, strip_prefix, if◌then◌else◌,
}
use multi_fuzz_benchmarks.Prelude.Dict.{Dict, lookup}

-- A `match` on a text with a default.
unfoldable pub text_of : Dict Text Text → Text → Text → Text
text_of table name default = elim (lookup name table) [ none ↦ default | some value ↦ value ]

unfoldable pub strip : Text → Text → Text
strip prefix name = elim (strip_prefix prefix name) [ none ↦ name | some rest ↦ rest ]

abbrev pub display_names : Dict Text Text
display_names =
    (codes "CNC", codes "P2IM/CNC")
    ∷ (codes "Drone", codes "P2IM/Drone")
    ∷ (codes "Heat_Press", codes "P2IM/Heat Press")
    ∷ (codes "Reflow_Oven", codes "P2IM/Reflow Oven")
    ∷ (codes "Soldering_Iron", codes "P2IM/Soldering Iron")
    ∷ (codes "Console", codes "P2IM/Console")
    ∷ (codes "Gateway", codes "P2IM/Gateway")
    ∷ (codes "PLC", codes "P2IM/PLC")
    ∷ (codes "Robot", codes "P2IM/Robot")
    ∷ (codes "Steering_Control", codes "P2IM/Steering Control")
    ∷ (codes "uEmu.3Dprinter", codes "uEmu/3D Printer")
    ∷ (codes "uEmu.GPSTracker", codes "uEmu/GPS Tracker")
    ∷ (codes "LiteOS_IoT", codes "uEmu/LiteOS IoT")
    ∷ (codes "utasker_MODBUS", codes "uEmu/uTasker MODBUS")
    ∷ (codes "utasker_USB", codes "uEmu/uTasker USB")
    ∷ (codes "Zepyhr_SocketCan", codes "uEmu/Zephyr SocketCan")
    ∷ (codes "RF_Door_Lock", codes "Pretender/RF Door Lock")
    ∷ (codes "Thermostat", codes "Pretender/Thermostat")
    ∷ (codes "XML_Parser", codes "WYCINWYC/XML Parser")
    ∷ (codes "6LoWPAN_Receiver", codes "HALucinator/6LoWPAN Receiver")
    ∷ (codes "6LoWPAN_Sender", codes "HALucinator/6LoWPAN")
    ∷ (codes "riot-gnrc_networking", codes "gnrc networking")
    ∷ (codes "riot-filesystem", codes "File System")
    ∷ (codes "riot-ccn-lite-relay", codes "CCN-Lite Relay")
    ∷ []

unfoldable pub name_of_binary : Text → Text
unfolding text_of strip
name_of_binary name =
    let short = strip (codes "uEmu_") (strip (codes "P2IM_") name) in
    text_of display_names short (short ++ codes "?")

-- `NAMES` of `binary_order`.
abbrev pub ordered_names : List Text
ordered_names =
    codes "CNC"
    ∷ codes "Console"
    ∷ codes "Drone"
    ∷ codes "Reflow_Oven"
    ∷ codes "Robot"
    ∷ codes "Steering_Control"
    ∷ codes "6LoWPAN_Sender"
    ∷ codes "6LoWPAN_Receiver"
    ∷ codes "LiteOS_IoT"
    ∷ codes "uEmu.3Dprinter"
    ∷ codes "uEmu.GPSTracker"
    ∷ codes "utasker_MODBUS"
    ∷ codes "utasker_USB"
    ∷ codes "XML_Parser"
    ∷ codes "Zepyhr_SocketCan"
    ∷ codes "Gateway"
    ∷ codes "Soldering_Iron"
    ∷ codes "Heat_Press"
    ∷ codes "PLC"
    ∷ codes "Thermostat"
    ∷ codes "RF_Door_Lock"
    ∷ codes "riot-lorawan"
    ∷ codes "riot-gnrc_networking"
    ∷ codes "riot-filesystem"
    ∷ codes "riot-ccn-lite-relay"
    ∷ []

unfoldable pub position : Text → List Text → Option ℕ
position name [] = none
position name (x ∷ names) =
    let rest = position name names in
    if x == name then some 0 else elim rest [ none ↦ none | some i ↦ some (suc i) ]

-- `usize::MAX` for an unknown name.
unfoldable pub binary_order : Text → ℕ
unfolding position
binary_order name = elim (position name ordered_names) [ none ↦ 2 ^ 64 - 1 | some index ↦ index ]

unfoldable pub one_of : Text → List Text → Bool
one_of name [] = false
one_of name (x ∷ names) = if x == name then true else one_of name names

abbrev pub exploited : List Text
exploited =
    codes "Heat_Press"
    ∷ codes "PLC"
    ∷ codes "Soldering_Iron"
    ∷ codes "RF_Door_Lock"
    ∷ codes "Thermostat"
    ∷ codes "Gateway"
    ∷ []

unfoldable pub has_bug_exploit : Text → Bool
unfolding one_of
has_bug_exploit name = one_of name exploited

-- `normalize_binary_name` of multifuzz.rs.
unfoldable pub normalize_multifuzz_name : Text → Text
unfolding text_of
normalize_multifuzz_name name =
    text_of
      ((codes "6LoWPAN_Receiver", codes "6LoWPAN_Sender")
        ∷ (codes "3Dprinter", codes "uEmu.3Dprinter")
        ∷ (codes "GPSTracker", codes "uEmu.GPSTracker")
        ∷ [])
      name name

-- `normalize_binary_name` of ember.rs.
unfoldable pub normalize_ember_name : Text → Text
unfolding text_of
normalize_ember_name name =
    text_of
      ((codes "6LoWPAN-Receiver", codes "6LoWPAN_Receiver")
        ∷ (codes "6LoWPAN-Sender", codes "6LoWPAN_Sender")
        ∷ (codes "Zephyr_SocketCAN", codes "Zepyhr_SocketCan")
        ∷ (codes "uTasker_MODBUS", codes "utasker_MODBUS")
        ∷ (codes "uTasker_USB", codes "utasker_USB")
        ∷ (codes "GPS_Tracker", codes "uEmu.GPSTracker")
        ∷ (codes "RF_Doorlock", codes "RF_Door_Lock")
        ∷ (codes "3D_Printer", codes "uEmu.3Dprinter")
        ∷ [])
      name name
