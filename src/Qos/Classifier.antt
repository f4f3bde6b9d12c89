-- ===== src/Qos/Classifier.antt =====
-- From the base header to the scheduling class (src/core/ipv8-qos/src/classifier.rs).
use ipv_8_public_base_statio.Common.{
  ℕ, ◌-◌, ◌/◌, ◌%◌, Option, none, some, List, ltb, leb, if◌then◌else◌, length, get_or,
}
use ipv_8_public_base_statio.Common.Bytes.{of_be16}
use ipv_8_public_base_statio.Codec.Header.{base_header_size}

abbrev pub num_classes : ℕ
num_classes = 4

unfoldable pub class_of_level : ℕ → ℕ
class_of_level level = let c = level / 4 in if leb num_classes c then num_classes - 1 else c

unfoldable pub qos_level_of_base_header : List ℕ → Option ℕ
qos_level_of_base_header base40 =
    if ltb (length base40) base_header_size
    then none
    else some (of_be16 (get_or base40 1 0) (get_or base40 2 0) % 16)

class_or_lowest : Option ℕ → ℕ
unfolding class_of_level
class_or_lowest none = 0
class_or_lowest (some level) = class_of_level level

unfoldable pub classify_base_header : List ℕ → ℕ
unfolding class_or_lowest qos_level_of_base_header
classify_base_header base40 = class_or_lowest (qos_level_of_base_header base40)
