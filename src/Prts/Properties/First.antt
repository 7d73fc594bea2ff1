-- ===== src/Prts/Properties/First.antt =====
-- pkg/prts/bacnet.go: the names of the properties 0 to 139 of BACnet.
use Prim.Native.Nat.{ℕ}
use Prim.Native.String.{String}
use mathlib.Core.List.{List, [], ◌∷◌}

abbrev pub properties_from_0 : List (ℕ × String)
properties_from_0 =
    (0, "acked_transitions")
    ∷ (1, "ack_required")
    ∷ (2, "action")
    ∷ (3, "action_text")
    ∷ (4, "active_text")
    ∷ (5, "active_vt_sessions")
    ∷ (6, "alarm_value")
    ∷ (7, "alarm_values")
    ∷ (8, "all")
    ∷ (9, "all_writes_successful")
    ∷ (10, "apdu_segment_timeout")
    ∷ (11, "apdu_timeout")
    ∷ (12, "application_software_version")
    ∷ (13, "archive")
    ∷ (14, "bias")
    ∷ (15, "change_of_state_count")
    ∷ (16, "change_of_state_time")
    ∷ (17, "notification_class")
    ∷ (18, "blank_1")
    ∷ (19, "controlled_variable_reference")
    ∷ (20, "controlled_variable_units")
    ∷ (21, "controlled_variable_value")
    ∷ (22, "cov_increment")
    ∷ (23, "date_list")
    ∷ (24, "daylight_savings_status")
    ∷ (25, "deadband")
    ∷ (26, "derivative_constant")
    ∷ (27, "derivative_constant_units")
    ∷ (28, "description")
    ∷ (29, "description_of_halt")
    ∷ (30, "device_address_binding")
    ∷ (31, "device_type")
    ∷ (32, "effective_period")
    ∷ (33, "elapsed_active_time")
    ∷ (34, "error_limit")
    ∷ (35, "event_enable")
    ∷ (36, "event_state")
    ∷ (37, "event_type")
    ∷ (38, "exception_schedule")
    ∷ (39, "fault_values")
    ∷ (40, "feedback_value")
    ∷ (41, "file_access_method")
    ∷ (42, "file_size")
    ∷ (43, "file_type")
    ∷ (44, "firmware_revision")
    ∷ (45, "high_limit")
    ∷ (46, "inactive_text")
    ∷ (47, "in_process")
    ∷ (48, "instance_of")
    ∷ (49, "integral_constant")
    ∷ (50, "integral_constant_units")
    ∷ (51, "issue_confirmed_notifications")
    ∷ (52, "limit_enable")
    ∷ (53, "list_of_group_members")
    ∷ (54, "list_of_object_property_references")
    ∷ (55, "list_of_session_keys")
    ∷ (56, "local_date")
    ∷ (57, "local_time")
    ∷ (58, "location")
    ∷ (59, "low_limit")
    ∷ (60, "manipulated_variable_reference")
    ∷ (61, "maximum_output")
    ∷ (62, "max_apdu_length_accepted")
    ∷ (63, "max_info_frames")
    ∷ (64, "max_master")
    ∷ (65, "max_pres_value")
    ∷ (66, "minimum_off_time")
    ∷ (67, "minimum_on_time")
    ∷ (68, "minimum_output")
    ∷ (69, "min_pres_value")
    ∷ (70, "model_name")
    ∷ (71, "modification_date")
    ∷ (72, "notify_type")
    ∷ (73, "number_of_apdu_retries")
    ∷ (74, "number_of_states")
    ∷ (75, "object_identifier")
    ∷ (76, "object_list")
    ∷ (77, "object_name")
    ∷ (78, "object_property_reference")
    ∷ (79, "object_type")
    ∷ (80, "optional")
    ∷ (81, "out_of_service")
    ∷ (82, "output_units")
    ∷ (83, "event_parameters")
    ∷ (84, "polarity")
    ∷ (85, "present_value")
    ∷ (86, "priority")
    ∷ (87, "priority_array")
    ∷ (88, "priority_for_writing")
    ∷ (89, "process_identifier")
    ∷ (90, "program_change")
    ∷ (91, "program_location")
    ∷ (92, "program_state")
    ∷ (93, "proportional_constant")
    ∷ (94, "proportional_constant_units")
    ∷ (95, "protocol_conformance_class")
    ∷ (96, "protocol_object_types_supported")
    ∷ (97, "protocol_services_supported")
    ∷ (98, "protocol_version")
    ∷ (99, "read_only")
    ∷ (100, "reason_for_halt")
    ∷ (101, "recipient")
    ∷ (102, "recipient_list")
    ∷ (103, "reliability")
    ∷ (104, "relinquish_default")
    ∷ (105, "required")
    ∷ (106, "resolution")
    ∷ (107, "segmentation_supported")
    ∷ (108, "setpoint")
    ∷ (109, "setpoint_reference")
    ∷ (110, "state_text")
    ∷ (111, "status_flags")
    ∷ (112, "system_status")
    ∷ (113, "time_delay")
    ∷ (114, "time_of_active_time_reset")
    ∷ (115, "time_of_state_count_reset")
    ∷ (116, "time_synchronization_recipients")
    ∷ (117, "units")
    ∷ (118, "update_interval")
    ∷ (119, "utc_offset")
    ∷ (120, "vendor_identifier")
    ∷ (121, "vendor_name")
    ∷ (122, "vt_classes_supported")
    ∷ (123, "weekly_schedule")
    ∷ (124, "attempted_samples")
    ∷ (125, "average_value")
    ∷ (126, "buffer_size")
    ∷ (127, "client_cov_increment")
    ∷ (128, "cov_resubscription_interval")
    ∷ (129, "current_notify_time")
    ∷ (130, "event_time_stamps")
    ∷ (131, "log_buffer")
    ∷ (132, "log_device_object_property")
    ∷ (133, "enable")
    ∷ (134, "log_interval")
    ∷ (135, "maximum_value")
    ∷ (136, "minimum_value")
    ∷ (137, "notification_threshold")
    ∷ (138, "previous_notify_time")
    ∷ (139, "protocol_revision")
    ∷ []
