-- ===== src/Lib.antt =====
-- netifd, the network interface daemon of OpenWrt: a model of its core, with proofs.
--
-- The daemon keeps a list of devices (device.c) and a list of interfaces (interface.c). An interface
-- is a user of its main device and of its layer 3 device. A claim of a user brings a device up, the
-- last release brings it down, and the device tells its users by events what happens to it. An
-- interface is driven by a protocol handler; a handler that is a script (proto-shell.c) runs the
-- script as a process, watches it with timers, and reports to the interface. The subnets of a
-- delegated IPv6 prefix are handed out to the interfaces by interface-ip.c.
--
--   * Prelude: tests on the native numbers, integers, lists, and the two lemmas that follow an if and
--     an option of the code.
--   * Settings (device.c, device.h): device_init_settings reads an attribute table,
--     device_merge_settings shows what a status dump reads. A flag word is kept by its bits.
--   * Prefix (interface-ip.c, interface-ip.h): interface_prefix_assign, prefix_assignment_cmp and the
--     list that interface_update_prefix_assignments builds.
--   * Device (device.c, device.h): claims, releases, events, presence, users and configuration. The
--     store has devices and users as numbered cells, for pointers. It is generic in the state of the
--     rest of the daemon, `env`. Hooks are what is reached through function pointers (callbacks of
--     users, set_state of a device) or in the system layer, and the walk over a list of users
--     (safe_list of libubox). Device.Laws says what they are asked to keep.
--   * ProtoShell (proto-shell.c, main.c, proto.h): the state machine of a script handler, its two
--     processes and its timers, and the notifications of a script. ProtoShell.Runs is the relation of
--     all events that can follow one another.
--   * Interface (interface.c, interface.h, proto.c): the state machine of an interface over the store
--     of devices. The hooks are calls of interface-ip.c, alias.c, the protocol handler and the users
--     of the interface; Interface.Kept says what they are asked to keep, and
--     Interface.Leaves where a main device is given up.
--   * Hotplug (interface-event.c): the queue of events for the hotplug scripts, which run one at a time.
--     An interface is its number; Hotplug.Runs is the relation of all events.
--   * Wireless (wireless.c, wireless.h): the state machine of a wireless device, whose driver is a
--     script, and the queue of the devices whose scripts run one at a time. Wireless.Reach is the
--     relation of all events.
--   * Address (interface-ip.c): the addresses, routes and neighbors of an interface, with what the
--     system layer is asked for as a log. The kernel has an item if the last request about it added it.
--     interface_ip_set_enabled is in two parts: Address.Update has its loop over the addresses, and
--     Address.Switch the loops over routes and neighbors.
--   * Bridge (bridge.c): the members of a bridge and their VLANs, over the store of devices, of which
--     a bridge is the `env`. A member is the number of its device user. Bridge.Present says what the
--     hooks are asked to keep; Bridge.Runs is the relation of all events.
--   * Bonding (bonding.c): the ports of a bond, in the same way. Bonding.Counted says what the hooks
--     are asked to keep; Bonding.Runs is the relation of all events.
--   * Utils (utils.c, utils.h): lists whose nodes carry a version, fls, netmasks and addresses, and the
--     check of the program of a process. strtoul, inet_aton, inet_pton and readlink are parameters.
--   * System (system-linux.c): the settings of a device, written to the kernel and read from it. The
--     kernel is a parameter, and System.Cells says what it is asked to do. Settings are applied by
--     a list of calls, each wanted or not, in the order of the code. The model is about one device.
--   * IpRule (iprule.c, iprule.h): policy rules, read from attributes, kept in their tree, and added to
--     the kernel while their interfaces have devices. IpRule.Runs is the relation of all events. The
--     parser takes strtoul, sscanf and the lookups of tables and actions as parameters.
--   * Examples: the code on concrete inputs, with hooks that can be run.
--
-- Fuel: `retry` of Prefix.Assign is given 64 - length rounds; the code leaves the loop when the length
-- exceeds 64, so these are all rounds. `print_on` of System.Text is given ten digits, which are enough
-- below 2 ^ 32. All else is structural.
--
-- Numbers: counts are kept in ℕ, where the code has int, and in ℤ where they may become negative
-- (n_present of a bridge and a bond, retries, versions of lists); fls is on 32 digits, and a
-- netmask is cut to them. The places of subnets are below 2 ^ 31 for prefixes of length 34 and
-- more, which the theorem on the whole list asks for. A list of users that changes during a walk, a process and a timer are
-- hooks or flags; memory that runs out is not modelled.
--
-- Not modelled: the ubus interface, the configuration files, the messages to the kernel but for
-- the settings of a device (system-linux.c), device types other than their hooks (VLAN, tunnels,
-- external devices), the interfaces, VLANs and stations of a wireless device, and the prefix
-- addresses and DNS files of interface-ip.c.
pub mod Prelude
pub mod Settings
pub mod Prefix
pub mod Device
pub mod ProtoShell
pub mod Interface
pub mod Hotplug
pub mod Wireless
pub mod Address
pub mod Bridge
pub mod Bonding
pub mod Utils
pub mod System
pub mod IpRule
pub mod Examples
