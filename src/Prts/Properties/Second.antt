-- ===== src/Prts/Properties/Second.antt =====
-- pkg/prts/bacnet.go: the names of the properties 140 to 287 of BACnet.
use Prim.Native.Nat.{ℕ}
use Prim.Native.String.{String}
use mathlib.Core.List.{List, [], ◌∷◌}

abbrev pub properties_from_140 : List (ℕ × String)
properties_from_140 =
    (140, "records_since_notification")
    ∷ (141, "record_count")
    ∷ (142, "start_time")
    ∷ (143, "stop_time")
    ∷ (144, "stop_when_full")
    ∷ (145, "total_record_count")
    ∷ (146, "valid_samples")
    ∷ (147, "window_interval")
    ∷ (148, "window_samples")
    ∷ (149, "maximum_value_timestamp")
    ∷ (150, "minimum_value_timestamp")
    ∷ (151, "variance_value")
    ∷ (152, "active_cov_subscriptions")
    ∷ (153, "backup_failure_timeout")
    ∷ (154, "configuration_files")
    ∷ (155, "database_revision")
    ∷ (156, "direct_reading")
    ∷ (157, "last_restore_time")
    ∷ (158, "maintenance_required")
    ∷ (159, "member_of")
    ∷ (160, "mode")
    ∷ (161, "operation_expected")
    ∷ (162, "setting")
    ∷ (163, "silenced")
    ∷ (164, "tracking_value")
    ∷ (165, "zone_members")
    ∷ (166, "life_safety_alarm_values")
    ∷ (167, "max_segments_accepted")
    ∷ (168, "profile_name")
    ∷ (169, "auto_slave_discovery")
    ∷ (170, "manual_slave_address_binding")
    ∷ (171, "slave_address_binding")
    ∷ (172, "slave_proxy_enable")
    ∷ (173, "last_notify_record")
    ∷ (174, "schedule_default")
    ∷ (175, "accepted_modes")
    ∷ (176, "adjust_value")
    ∷ (177, "count")
    ∷ (178, "count_before_change")
    ∷ (179, "count_change_time")
    ∷ (180, "cov_period")
    ∷ (181, "input_reference")
    ∷ (182, "limit_monitoring_interval")
    ∷ (183, "logging_object")
    ∷ (184, "logging_record")
    ∷ (185, "prescale")
    ∷ (186, "pulse_rate")
    ∷ (187, "scale")
    ∷ (188, "scale_factor")
    ∷ (189, "update_time")
    ∷ (190, "value_before_change")
    ∷ (191, "value_set")
    ∷ (192, "value_change_time")
    ∷ (193, "align_intervals")
    ∷ (195, "interval_offset")
    ∷ (196, "last_restart_reason")
    ∷ (197, "logging_type")
    ∷ (202, "restart_notification_recipients")
    ∷ (203, "time_of_device_restart")
    ∷ (204, "time_synchronization_interval")
    ∷ (205, "trigger")
    ∷ (206, "utc_time_synchronization_recipients")
    ∷ (207, "node_subtype")
    ∷ (208, "node_type")
    ∷ (209, "structured_object_list")
    ∷ (210, "subordinate_annotations")
    ∷ (211, "subordinate_list")
    ∷ (212, "actual_shed_level")
    ∷ (213, "duty_window")
    ∷ (214, "expected_shed_level")
    ∷ (215, "full_duty_baseline")
    ∷ (218, "requested_shed_level")
    ∷ (219, "shed_duration")
    ∷ (220, "shed_level_descriptions")
    ∷ (221, "shed_levels")
    ∷ (222, "state_description")
    ∷ (226, "door_alarm_state")
    ∷ (227, "door_extended_pulse_time")
    ∷ (228, "door_members")
    ∷ (229, "door_open_too_long_time")
    ∷ (230, "door_pulse_time")
    ∷ (231, "door_status")
    ∷ (232, "door_unlock_delay_time")
    ∷ (233, "lock_status")
    ∷ (234, "masked_alarm_values")
    ∷ (235, "secured_status")
    ∷ (244, "absentee_limit")
    ∷ (245, "access_alarm_events")
    ∷ (246, "access_doors")
    ∷ (247, "access_event")
    ∷ (248, "access_event_authentication_factor")
    ∷ (249, "access_event_credential")
    ∷ (250, "access_event_time")
    ∷ (251, "access_transaction_events")
    ∷ (252, "accompaniment")
    ∷ (253, "accompaniment_time")
    ∷ (254, "activation_time")
    ∷ (255, "active_authentication_policy")
    ∷ (256, "assigned_access_rights")
    ∷ (257, "authentication_factors")
    ∷ (258, "authentication_policy_list")
    ∷ (259, "authentication_policy_names")
    ∷ (260, "authentication_status")
    ∷ (261, "authorization_mode")
    ∷ (262, "belongs_to")
    ∷ (263, "credential_disable")
    ∷ (264, "credential_status")
    ∷ (265, "credentials")
    ∷ (266, "credentials_in_zone")
    ∷ (267, "days_remaining")
    ∷ (268, "entry_points")
    ∷ (269, "exit_points")
    ∷ (270, "expiration_time")
    ∷ (271, "extended_time_enable")
    ∷ (272, "failed_attempt_events")
    ∷ (273, "failed_attempts")
    ∷ (274, "failed_attempts_time")
    ∷ (275, "last_access_event")
    ∷ (276, "last_access_point")
    ∷ (277, "last_credential_added")
    ∷ (278, "last_credential_added_time")
    ∷ (279, "last_credential_removed")
    ∷ (280, "last_credential_removed_time")
    ∷ (281, "last_use_time")
    ∷ (282, "lockout")
    ∷ (283, "lockout_relinquish_time")
    ∷ (284, "master_exemption")
    ∷ (285, "max_failed_attempts")
    ∷ (286, "members")
    ∷ (287, "muster_point")
    ∷ []
