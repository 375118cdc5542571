-- ===== src/Simulator/Registers/Meter.antt =====
-- internal/simulator/registers.go: the registers of the meter.
use virtual_bess.Prelude.{ℕ}

abbrev pub reg_meter_combined_energy_hi : ℕ
reg_meter_combined_energy_hi = 10010

abbrev pub reg_meter_combined_energy_lo : ℕ
reg_meter_combined_energy_lo = 10011

abbrev pub reg_meter_forward_energy_hi : ℕ
reg_meter_forward_energy_hi = 10012

abbrev pub reg_meter_forward_energy_lo : ℕ
reg_meter_forward_energy_lo = 10013

abbrev pub reg_meter_reverse_energy_hi : ℕ
reg_meter_reverse_energy_hi = 10014

abbrev pub reg_meter_reverse_energy_lo : ℕ
reg_meter_reverse_energy_lo = 10015

abbrev pub reg_meter_voltage_a : ℕ
reg_meter_voltage_a = 10016

abbrev pub reg_meter_voltage_b : ℕ
reg_meter_voltage_b = 10017

abbrev pub reg_meter_voltage_c : ℕ
reg_meter_voltage_c = 10018

abbrev pub reg_meter_current_a_hi : ℕ
reg_meter_current_a_hi = 10019

abbrev pub reg_meter_current_a_lo : ℕ
reg_meter_current_a_lo = 10020

abbrev pub reg_meter_current_b_hi : ℕ
reg_meter_current_b_hi = 10021

abbrev pub reg_meter_current_b_lo : ℕ
reg_meter_current_b_lo = 10022

abbrev pub reg_meter_current_c_hi : ℕ
reg_meter_current_c_hi = 10023

abbrev pub reg_meter_current_c_lo : ℕ
reg_meter_current_c_lo = 10024

abbrev pub reg_meter_active_pw_total_hi : ℕ
reg_meter_active_pw_total_hi = 10025

abbrev pub reg_meter_active_pw_total_lo : ℕ
reg_meter_active_pw_total_lo = 10026

abbrev pub reg_meter_active_pwa_hi : ℕ
reg_meter_active_pwa_hi = 10027

abbrev pub reg_meter_active_pwa_lo : ℕ
reg_meter_active_pwa_lo = 10028

abbrev pub reg_meter_active_pwb_hi : ℕ
reg_meter_active_pwb_hi = 10029

abbrev pub reg_meter_active_pwb_lo : ℕ
reg_meter_active_pwb_lo = 10030

abbrev pub reg_meter_active_pwc_hi : ℕ
reg_meter_active_pwc_hi = 10031

abbrev pub reg_meter_active_pwc_lo : ℕ
reg_meter_active_pwc_lo = 10032

abbrev pub reg_meter_reactive_pw_total_hi : ℕ
reg_meter_reactive_pw_total_hi = 10033

abbrev pub reg_meter_reactive_pw_total_lo : ℕ
reg_meter_reactive_pw_total_lo = 10034

abbrev pub reg_meter_reactive_pwa_hi : ℕ
reg_meter_reactive_pwa_hi = 10035

abbrev pub reg_meter_reactive_pwa_lo : ℕ
reg_meter_reactive_pwa_lo = 10036

abbrev pub reg_meter_reactive_pwb_hi : ℕ
reg_meter_reactive_pwb_hi = 10037

abbrev pub reg_meter_reactive_pwb_lo : ℕ
reg_meter_reactive_pwb_lo = 10038

abbrev pub reg_meter_reactive_pwc_hi : ℕ
reg_meter_reactive_pwc_hi = 10039

abbrev pub reg_meter_reactive_pwc_lo : ℕ
reg_meter_reactive_pwc_lo = 10040

abbrev pub reg_meter_apparent_pw_total_hi : ℕ
reg_meter_apparent_pw_total_hi = 10041

abbrev pub reg_meter_apparent_pw_total_lo : ℕ
reg_meter_apparent_pw_total_lo = 10042

abbrev pub reg_meter_apparent_pwa_hi : ℕ
reg_meter_apparent_pwa_hi = 10043

abbrev pub reg_meter_apparent_pwa_lo : ℕ
reg_meter_apparent_pwa_lo = 10044

abbrev pub reg_meter_apparent_pwb_hi : ℕ
reg_meter_apparent_pwb_hi = 10045

abbrev pub reg_meter_apparent_pwb_lo : ℕ
reg_meter_apparent_pwb_lo = 10046

abbrev pub reg_meter_apparent_pwc_hi : ℕ
reg_meter_apparent_pwc_hi = 10047

abbrev pub reg_meter_apparent_pwc_lo : ℕ
reg_meter_apparent_pwc_lo = 10048

abbrev pub reg_meter_pf_total_hi : ℕ
reg_meter_pf_total_hi = 10049

abbrev pub reg_meter_pf_total_lo : ℕ
reg_meter_pf_total_lo = 10050

abbrev pub reg_meter_pfa_hi : ℕ
reg_meter_pfa_hi = 10051

abbrev pub reg_meter_pfa_lo : ℕ
reg_meter_pfa_lo = 10052

abbrev pub reg_meter_pfb_hi : ℕ
reg_meter_pfb_hi = 10053

abbrev pub reg_meter_pfb_lo : ℕ
reg_meter_pfb_lo = 10054

abbrev pub reg_meter_pfc_hi : ℕ
reg_meter_pfc_hi = 10055

abbrev pub reg_meter_pfc_lo : ℕ
reg_meter_pfc_lo = 10056

abbrev pub reg_meter_frequency : ℕ
reg_meter_frequency = 10057
