-- ===== src/Plugin.antt =====
-- internal/plugin: the host that runs the pre-store plugins of a collection (host.go), and what a
-- plugin may do to an event (plugin.go). A plugin is code that the host is given: a parameter.
pub mod Host
