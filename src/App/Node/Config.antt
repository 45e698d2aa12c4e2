-- ===== src/App/Node/Config.antt =====
-- A new configuration: what `app_update_config` does with it, and that it survives a restart.
use climate_node.Service.Storage.Flash.{Flash}
use climate_node.App.Node.{App}
