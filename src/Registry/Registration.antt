-- ===== src/Registry/Registration.antt =====
-- Registering one creator.
use artest_cli.Registry.Creators.{Registry}
