-- ===== src/Mac/Lcid.antt =====
-- stack/mac/include/mac/mac_pdu.h: the logical channel identifiers.
use aether_stack.Base.{ℕ}

abbrev pub lcid_ccch : ℕ
lcid_ccch = 0

abbrev pub lcid_nas_dcch : ℕ
lcid_nas_dcch = 1

abbrev pub lcid_app_dtch : ℕ
lcid_app_dtch = 2

abbrev pub lcid_app_sig : ℕ
lcid_app_sig = 3

abbrev pub lcid_app_voice : ℕ
lcid_app_voice = 4

abbrev pub lcid_app_video : ℕ
lcid_app_video = 5

abbrev pub lcid_rlc_status_sig : ℕ
lcid_rlc_status_sig = 57

abbrev pub lcid_rlc_status : ℕ
lcid_rlc_status = 59
