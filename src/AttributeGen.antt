-- ===== src/AttributeGen.antt =====
-- extensions/attributegen/plugin.{h,cc}: the plugin that sets an attribute of the filter state from
-- the first condition that holds. The host is a parameter; see Expressions.
mod Plugin
mod Select
mod Phases
mod Sound
mod Runs
mod Configure
mod Tests
