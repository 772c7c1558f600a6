-- ===== src/Types/ObjectGroup.antt =====
-- `ObjectGroup` of src/types.rs: the enum, its numbers, the static table NAMES and the
-- conversions from a number and from a name.
pub mod Laws
use rctpower_protocol.Base.{ℕ, suc, ◌+◌, Option, none, some, List, [], ◌∷◌}
use rctpower_protocol.Base.{leb, ◌==◌, if◌then◌else◌, get_elem?}
use rctpower_protocol.Base.Bytes.{codes}
use rctpower_protocol.Base.Text.{Text, text_eq}

pub data ObjectGroup : Type 0 where
  rb485 energy grid_mon temperature battery cs_neg hw_test g_sync logger wifi adc net acc_conv :
      ObjectGroup
  dc_conv nsm io_board flash_rtc power_mng buf_v_control db switch_on_cond p_rec modbus :
      ObjectGroup
  bat_mng_struct iso_struct grid_lt can_bus display_struct flash_param fault prim_sm cs_map :
      ObjectGroup
  line_mon others battery_placeholder frt partition : ObjectGroup

-- `self as u8`.
unfoldable pub number : ObjectGroup → ℕ
number rb485 = 0
number energy = 1
number grid_mon = 2
number temperature = 3
number battery = 4
number cs_neg = 5
number hw_test = 6
number g_sync = 7
number logger = 8
number wifi = 9
number adc = 10
number net = 11
number acc_conv = 12
number dc_conv = 13
number nsm = 14
number io_board = 15
number flash_rtc = 16
number power_mng = 17
number buf_v_control = 18
number db = 19
number switch_on_cond = 20
number p_rec = 21
number modbus = 22
number bat_mng_struct = 23
number iso_struct = 24
number grid_lt = 25
number can_bus = 26
number display_struct = 27
number flash_param = 28
number fault = 29
number prim_sm = 30
number cs_map = 31
number line_mon = 32
number others = 33
number battery_placeholder = 34
number frt = 35
number partition = 36

-- The static table NAMES.
abbrev pub names : List Text
names =
    codes "RB485"
    ∷ codes "ENERGY"
    ∷ codes "GRID_MON"
    ∷ codes "TEMPERATURE"
    ∷ codes "BATTERY"
    ∷ codes "CS_NEG"
    ∷ codes "HW_TEST"
    ∷ codes "G_SYNC"
    ∷ codes "LOGGER"
    ∷ codes "WIFI"
    ∷ codes "ADC"
    ∷ codes "NET"
    ∷ codes "ACC_CONV"
    ∷ codes "DC_CONV"
    ∷ codes "NSM"
    ∷ codes "IO_BOARD"
    ∷ codes "FLASH_RTC"
    ∷ codes "POWER_MNG"
    ∷ codes "BUF_V_CONTROL"
    ∷ codes "DB"
    ∷ codes "SWITCH_ON_COND"
    ∷ codes "P_REC"
    ∷ codes "MODBUS"
    ∷ codes "BAT_MNG_STRUCT"
    ∷ codes "ISO_STRUCT"
    ∷ codes "GRID_LT"
    ∷ codes "CAN_BUS"
    ∷ codes "DISPLAY_STRUCT"
    ∷ codes "FLASH_PARAM"
    ∷ codes "FAULT"
    ∷ codes "PRIM_SM"
    ∷ codes "CS_MAP"
    ∷ codes "LINE_MON"
    ∷ codes "OTHERS"
    ∷ codes "BATTERY_PLACEHOLDER"
    ∷ codes "FRT"
    ∷ codes "PARTITION"
    ∷ []

-- The arms of the match in `from_u8`.
abbrev from_u8_table : List ObjectGroup
from_u8_table =
    rb485 ∷ energy ∷ grid_mon ∷ temperature ∷ battery ∷ cs_neg ∷ hw_test ∷ g_sync ∷ logger ∷ wifi
    ∷ adc ∷ net ∷ acc_conv ∷ dc_conv ∷ nsm ∷ io_board ∷ flash_rtc ∷ power_mng ∷ buf_v_control ∷ db
    ∷ switch_on_cond ∷ p_rec ∷ modbus ∷ bat_mng_struct ∷ iso_struct ∷ grid_lt ∷ can_bus
    ∷ display_struct ∷ flash_param ∷ fault ∷ prim_sm ∷ cs_map ∷ line_mon ∷ others
    ∷ battery_placeholder ∷ frt ∷ partition ∷ []

-- The guard `v <= 36`, then the match; its last arm, for a number above 36, cannot be reached.
unfoldable pub from_u8 : ℕ → Option ObjectGroup
from_u8 v = if leb v 36 then get_elem? from_u8_table v else none

-- The loop over `NAMES.iter().enumerate()`, from the index `e` on: the first hit returns.
unfoldable pub from_string_loop : Text → ℕ → List Text → Option ObjectGroup
unfolding text_eq
from_string_loop entry e [] = none
from_string_loop entry e (item ∷ rest) =
    if text_eq item entry then from_u8 e else from_string_loop entry (e + 1) rest

unfoldable pub from_string : Text → Option ObjectGroup
unfolding from_string_loop
from_string entry = from_string_loop entry 0 names

-- `Display`: `NAMES[*self as usize]`, `none` being the panic of an index out of range.
unfoldable pub display : ObjectGroup → Option Text
unfolding number
display g = get_elem? names (number g)
