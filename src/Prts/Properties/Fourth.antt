-- ===== src/Prts/Properties/Fourth.antt =====
-- pkg/prts/bacnet.go: the names of the properties 405 to 491 of BACnet.
use Prim.Native.Nat.{ℕ}
use Prim.Native.String.{String}
use mathlib.Core.List.{List, [], ◌∷◌}

abbrev pub properties_from_405 : List (ℕ × String)
properties_from_405 =
    (405, "ip_dhcp_server")
    ∷ (406, "ip_dns_server")
    ∷ (407, "bacnet_ip_global_address")
    ∷ (408, "bacnet_ip_mode")
    ∷ (409, "bacnet_ip_multicast_address")
    ∷ (410, "bacnet_ip_nat_traversal")
    ∷ (411, "ip_subnet_mask")
    ∷ (412, "bacnet_ip_udp_port")
    ∷ (413, "bbmd_accept_fd_registrations")
    ∷ (414, "bbmd_broadcast_distribution_table")
    ∷ (415, "bbmd_foreign_device_table")
    ∷ (416, "changes_pending")
    ∷ (417, "command")
    ∷ (418, "fd_bbmd_address")
    ∷ (419, "fd_subscription_lifetime")
    ∷ (420, "link_speed")
    ∷ (421, "link_speeds")
    ∷ (422, "link_speed_autonegotiate")
    ∷ (423, "mac_address")
    ∷ (424, "network_interface_name")
    ∷ (425, "network_number")
    ∷ (426, "network_number_quality")
    ∷ (427, "network_type")
    ∷ (428, "routing_table")
    ∷ (429, "virtual_mac_address_table")
    ∷ (430, "command_time_array")
    ∷ (431, "current_command_priority")
    ∷ (432, "last_command_time")
    ∷ (433, "value_source")
    ∷ (434, "value_source_array")
    ∷ (435, "bacnet_ipv6_mode")
    ∷ (436, "ipv6_address")
    ∷ (437, "ipv6_prefix_length")
    ∷ (438, "bacnet_ipv6_udp_port")
    ∷ (439, "ipv6_default_gateway")
    ∷ (440, "bacnet_ipv6_multicast_address")
    ∷ (441, "ipv6_dns_server")
    ∷ (442, "ipv6_auto_addressing_enable")
    ∷ (443, "ipv6_dhcp_lease_time")
    ∷ (444, "ipv6_dhcp_lease_time_remaining")
    ∷ (445, "ipv6_dhcp_server")
    ∷ (446, "ipv6_zone_index")
    ∷ (447, "assigned_landing_calls")
    ∷ (448, "car_assigned_direction")
    ∷ (449, "car_door_command")
    ∷ (450, "car_door_status")
    ∷ (451, "car_door_text")
    ∷ (452, "car_door_zone")
    ∷ (453, "car_drive_status")
    ∷ (454, "car_load")
    ∷ (455, "car_load_units")
    ∷ (456, "car_mode")
    ∷ (457, "car_moving_direction")
    ∷ (458, "car_position")
    ∷ (459, "elevator_group")
    ∷ (460, "energy_meter")
    ∷ (461, "energy_meter_ref")
    ∷ (462, "escalator_mode")
    ∷ (463, "fault_signals")
    ∷ (464, "floor_text")
    ∷ (465, "group_id")
    ∷ (467, "group_mode")
    ∷ (468, "higher_deck")
    ∷ (469, "installation_id")
    ∷ (470, "landing_calls")
    ∷ (471, "landing_call_control")
    ∷ (472, "landing_door_status")
    ∷ (473, "lower_deck")
    ∷ (474, "machine_room_id")
    ∷ (475, "making_car_call")
    ∷ (476, "next_stopping_floor")
    ∷ (477, "operation_direction")
    ∷ (478, "passenger_alarm")
    ∷ (479, "power_mode")
    ∷ (480, "registered_car_call")
    ∷ (481, "active_cov_multiple_subscriptions")
    ∷ (482, "protocol_level")
    ∷ (483, "reference_port")
    ∷ (484, "deployed_profile_location")
    ∷ (485, "profile_location")
    ∷ (486, "tags")
    ∷ (487, "subordinate_node_types")
    ∷ (488, "subordinate_tags")
    ∷ (489, "subordinate_relationships")
    ∷ (490, "default_subordinate_relationship")
    ∷ (491, "represents")
    ∷ []
