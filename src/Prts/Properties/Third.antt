-- ===== src/Prts/Properties/Third.antt =====
-- pkg/prts/bacnet.go: the names of the properties 288 to 404 of BACnet.
use Prim.Native.Nat.{ℕ}
use Prim.Native.String.{String}
use mathlib.Core.List.{List, [], ◌∷◌}

abbrev pub properties_from_288 : List (ℕ × String)
properties_from_288 =
    (288, "negative_access_rules")
    ∷ (289, "number_of_authentication_policies")
    ∷ (290, "occupancy_count")
    ∷ (291, "occupancy_count_adjust")
    ∷ (292, "occupancy_count_enable")
    ∷ (293, "occupancy_exemption")
    ∷ (294, "occupancy_lower_limit")
    ∷ (295, "occupancy_lower_limit_enforced")
    ∷ (296, "occupancy_state")
    ∷ (297, "occupancy_upper_limit")
    ∷ (298, "occupancy_upper_limit_enforced")
    ∷ (299, "passback_exemption")
    ∷ (300, "passback_mode")
    ∷ (301, "passback_timeout")
    ∷ (302, "positive_access_rules")
    ∷ (303, "reason_for_disable")
    ∷ (304, "supported_formats")
    ∷ (305, "supported_format_classes")
    ∷ (306, "threat_authority")
    ∷ (307, "threat_level")
    ∷ (308, "trace_flag")
    ∷ (309, "transaction_notification_class")
    ∷ (310, "user_external_identifier")
    ∷ (311, "user_information_reference")
    ∷ (317, "user_name")
    ∷ (318, "user_type")
    ∷ (319, "uses_remaining")
    ∷ (320, "zone_from")
    ∷ (321, "zone_to")
    ∷ (322, "access_event_tag")
    ∷ (323, "global_identifier")
    ∷ (326, "verification_time")
    ∷ (327, "base_device_security_policy")
    ∷ (328, "distribution_key_revision")
    ∷ (329, "do_not_hide")
    ∷ (330, "key_sets")
    ∷ (331, "last_key_server")
    ∷ (332, "network_access_security_policies")
    ∷ (333, "packet_reorder_time")
    ∷ (334, "security_pdu_timeout")
    ∷ (335, "security_time_window")
    ∷ (336, "supported_security_algorithm")
    ∷ (337, "update_key_set_timeout")
    ∷ (338, "backup_and_restore_state")
    ∷ (339, "backup_preparation_time")
    ∷ (340, "restore_completion_time")
    ∷ (341, "restore_preparation_time")
    ∷ (342, "bit_mask")
    ∷ (343, "bit_text")
    ∷ (344, "is_utc")
    ∷ (345, "group_members")
    ∷ (346, "group_member_names")
    ∷ (347, "member_status_flags")
    ∷ (348, "requested_update_interval")
    ∷ (349, "covu_period")
    ∷ (350, "covu_recipients")
    ∷ (351, "event_message_texts")
    ∷ (352, "event_message_texts_config")
    ∷ (353, "event_detection_enable")
    ∷ (354, "event_algorithm_inhibit")
    ∷ (355, "event_algorithm_inhibit_ref")
    ∷ (356, "time_delay_normal")
    ∷ (357, "reliability_evaluation_inhibit")
    ∷ (358, "fault_parameters")
    ∷ (359, "fault_type")
    ∷ (360, "local_forwarding_only")
    ∷ (361, "process_identifier_filter")
    ∷ (362, "subscribed_recipients")
    ∷ (363, "port_filter")
    ∷ (364, "authorization_exemptions")
    ∷ (365, "allow_group_delay_inhibit")
    ∷ (366, "channel_number")
    ∷ (367, "control_groups")
    ∷ (368, "execution_delay")
    ∷ (369, "last_priority")
    ∷ (370, "write_status")
    ∷ (371, "property_list")
    ∷ (372, "serial_number")
    ∷ (373, "blink_warn_enable")
    ∷ (374, "default_fade_time")
    ∷ (375, "default_ramp_rate")
    ∷ (376, "default_step_increment")
    ∷ (377, "egress_time")
    ∷ (378, "in_progress")
    ∷ (379, "instantaneous_power")
    ∷ (380, "lighting_command")
    ∷ (381, "lighting_command_default_priority")
    ∷ (382, "max_actual_value")
    ∷ (383, "min_actual_value")
    ∷ (384, "power")
    ∷ (385, "transition")
    ∷ (386, "egress_active")
    ∷ (387, "interface_value")
    ∷ (388, "fault_high_limit")
    ∷ (389, "fault_low_limit")
    ∷ (390, "low_diff_limit")
    ∷ (391, "strike_count")
    ∷ (392, "time_of_strike_count_reset")
    ∷ (393, "default_timeout")
    ∷ (394, "initial_timeout")
    ∷ (395, "last_state_change")
    ∷ (396, "state_change_values")
    ∷ (397, "timer_running")
    ∷ (398, "timer_state")
    ∷ (399, "apdu_length")
    ∷ (400, "ip_address")
    ∷ (401, "ip_default_gateway")
    ∷ (402, "ip_dhcp_enable")
    ∷ (403, "ip_dhcp_lease_time")
    ∷ (404, "ip_dhcp_lease_time_remaining")
    ∷ []
