-- ===== src/Tests/Settings.antt =====
-- The settings of two small files.
use iedsync_together.Prelude.{some, if◌then◌else◌}
use iedsync_together.Text.{codes, equal}
use iedsync_together.Config.Load.{Ini, load}
use iedsync_together.Config.Load.Bounds.{IsConfig, load-IsConfig}
use iedsync_together.Tests.Printing.{numerals}

abbrev ini : Ini
ini = record {
  int = λ section key fallback. if equal key (codes "LocalPort") then 70000 else fallback;
  text =
      λ section key fallback. if equal key (codes "RemotePeers") then codes "a:5;b" else fallback;
}

load-IsConfig_example : IsConfig (load ini (some ini))
load-IsConfig_example = load-IsConfig ini (some ini)
