-- ===== src/Session/Config.antt =====
-- booster/booster.go: the configuration of the connections.
use booster.Common.{[], ◌∷◌}
use booster.Link.{Config}

abbrev pub default_net_config : Config
default_net_config = record {
  tag_set = record {
    packet_opening_tag = b'>' ∷ [];
    packet_closing_tag = b'<' ∷ [];
    module_opening_tag = b'[' ∷ [];
    module_closing_tag = b']' ∷ [];
    separator = b':' ∷ [];
  };
  max_idle = 0;
}
