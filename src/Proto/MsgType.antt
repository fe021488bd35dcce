-- ===== src/Proto/MsgType.antt =====
-- `enum class MsgType : uint8_t` of proto.hpp. A cast from a received byte may give any byte.
use smart_lighting_system.Base.{ℕ}

abbrev pub register_req : ℕ
register_req = 1

abbrev pub register_ack : ℕ
register_ack = 2

abbrev pub register_nack : ℕ
register_nack = 3

abbrev pub status_report : ℕ
status_report = 4

abbrev pub cmd : ℕ
cmd = 5

abbrev pub fault_report : ℕ
fault_report = 6

abbrev pub fault_ack : ℕ
fault_ack = 7

abbrev pub alarm_up : ℕ
alarm_up = 22

abbrev pub alarm_ack : ℕ
alarm_ack = 23

abbrev pub region_sync_up : ℕ
region_sync_up = 20

abbrev pub region_sync_ack : ℕ
region_sync_ack = 21

abbrev pub admin_snapshot_req : ℕ
admin_snapshot_req = 40

abbrev pub admin_snapshot_ack : ℕ
admin_snapshot_ack = 41
