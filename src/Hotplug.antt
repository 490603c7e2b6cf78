-- ===== src/Hotplug.antt =====
-- interface-event.c: the queue of the hotplug scripts that are called on interface events.
pub mod Queue
pub mod Latest
pub mod Runs
