-- ===== src/Mvb/Ningbo.antt =====
-- modules/mvb_service/mvbprocessmsg/ningbo8/MVBNBDataGenerator.{h,cpp}: the state of the frame
-- generator of the Ningbo 8 line, with the calls that write one digit of it. The children hold the
-- alarm setters, the fault setters and the frame header.
pub mod Digits
pub mod Alarms
pub mod Faults
pub mod Header
pub mod Session
use infinity_station.Base.{
  ℕ, ◌+◌, ◌<◌, ◌≡◌, Bool, List, replicate, length, All, ◌==◌, if◌then◌else◌,
}
use infinity_station.Base.{Option, none, some, ◌>>=◌}
use infinity_station.Base.Int.{ℤ, pos, negsuc}
use infinity_station.Mvb.Frame.{IsByte, set_bit_set_value}

-- The fields of a class object. The numbers of the configuration are bit patterns of 32 and of
-- 16 digits.
pub record NbGenerator : Type 0 where
  pub bytes : List ℕ
  pub is_big_endian : Bool
  pub comid : ℕ
  pub soft_version : ℕ
  pub msg_type : ℕ
  pub pms_version : ℕ

-- The constructor, with the initialisers of the class. The argument is what `isBigEndian()` finds
-- on the host.
unfoldable pub new_generator : Bool → NbGenerator
new_generator host_is_big = record {
  bytes = replicate 72 0;
  is_big_endian = host_is_big;
  comid = 42150;
  soft_version = 0x0100;
  msg_type = 0x5064;
  pms_version = 0x1234;
}

-- What the class keeps between calls.
pub record IsValid (g : NbGenerator) : Type 0 where
  pub full : length g.bytes ≡ 72
  pub small : All IsByte g.bytes
  pub comid_fits : g.comid < 0x1_0000_0000
  pub soft_version_fits : g.soft_version < 0x1_0000
  pub msg_type_fits : g.msg_type < 0x1_0000
  pub pms_version_fits : g.pms_version < 0x1_0000

-- A call of the member `setBitSetValue`.
unfoldable pub write_bit : ℕ → ℕ → ℕ → ℕ → Bool → NbGenerator → Option NbGenerator
write_bit offset beginbit endbit modbit value g = do
  written ← set_bit_set_value offset beginbit endbit modbit value g.bytes
  some (record g { bytes = written })

-- `switch (iAlarmLevel)` with the cases 1, 2, 3 and default.
unfoldable pub switch_level {ℓ} : {A : Type ℓ} → ℤ → A → A → A → A → A
switch_level (pos n) one two three other =
    if n == 1 then one else (if n == 2 then two else (if n == 3 then three else other))
switch_level (negsuc n) one two three other = other
