-- ===== src/Events/UserAgent.antt =====
-- internal/events/useragent.go: what the parsed user agent says of browser and device.
-- The parser of package uaparser is the parameter `parse`; `none` is a parser that does not load, or
-- a nil client.
use formation_web_analytics.Base.{
  ◌&&◌, ◌||◌, not, Option, none, some, [], if◌then◌else◌, Bytes, codes, bytes_eq, is_empty,
}
use formation_web_analytics.Go.{Platform, to_lower}
use formation_web_analytics.Go.Strings.{trim_space, contains}

-- `uaparser.UserAgent`, `Os`, `Device` and `Client`; `version` is ToVersionString()
pub record Browser : Type 0 where
  pub family : Bytes
  pub version : Bytes
  pub major : Bytes

pub record System : Type 0 where
  pub family : Bytes
  pub version : Bytes

pub record Device : Type 0 where
  pub family : Bytes
  pub brand : Bytes
  pub model : Bytes

pub record Client : Type 0 where
  pub user_agent : Option Browser
  pub os : Option System
  pub device : Option Device

-- the fields of the event that `applyUserAgentDetails` sets
pub record Details : Type 0 where
  pub browser_family : Bytes
  pub browser_version : Bytes
  pub browser_major : Bytes
  pub browser_engine : Bytes
  pub os_family : Bytes
  pub os_version : Bytes
  pub device_family : Bytes
  pub device_brand : Bytes
  pub device_model : Bytes
  pub device_type : Bytes

abbrev pub no_details : Details
no_details = record {
  browser_family = [];
  browser_version = [];
  browser_major = [];
  browser_engine = [];
  os_family = [];
  os_version = [];
  device_family = [];
  device_brand = [];
  device_model = [];
  device_type = [];
}

module _ (go : Platform) where
  unfoldable pub derive_browser_engine : Bytes → Bytes → Bytes
  unfolding to_lower trim_space contains
  derive_browser_engine browser_family raw_ua =
      let family = to_lower go (trim_space browser_family) in
      let raw = to_lower go raw_ua in
      if bytes_eq family (codes "chrome")
        || bytes_eq family (codes "chromium")
        || bytes_eq family (codes "edge")
        || bytes_eq family (codes "opera")
        || contains (codes "edg/") raw
        || contains (codes "opr/") raw
      then codes "Blink"
      else if bytes_eq family (codes "safari") || contains (codes "applewebkit") raw
      then codes "WebKit"
      else if bytes_eq family (codes "firefox")
          || contains (codes "gecko/") raw
          || contains (codes "firefox/") raw
      then codes "Gecko"
      else []

  unfoldable pub derive_device_type : Bytes → Bytes → Bytes → Bytes → Bytes
  unfolding to_lower trim_space contains
  derive_device_type device_family os_family browser_family raw_ua =
      let device = to_lower go (trim_space device_family) in
      let os_name = to_lower go (trim_space os_family) in
      let browser = to_lower go (trim_space browser_family) in
      let raw = to_lower go raw_ua in
      if contains (codes "tablet") raw || contains (codes "ipad") raw
      then codes "tablet"
      else if contains (codes "mobile") raw
          || contains (codes "iphone") raw
          || contains (codes "android") raw && not (contains (codes "tablet") raw)
      then codes "mobile"
      else if contains (codes "smart-tv") raw
          || contains (codes "smarttv") raw
          || contains (codes "hbbtv") raw
          || contains (codes "appletv") raw
          || contains (codes "tv") raw
      then codes "tv"
      else if bytes_eq device (codes "spider")
          || bytes_eq browser (codes "googlebot")
          || bytes_eq browser (codes "bingbot")
          || contains (codes "bot") raw
      then codes "bot"
      else if bytes_eq device (codes "mac")
          || contains (codes "windows") os_name
          || contains (codes "mac os x") os_name
          || contains (codes "linux") os_name
          || contains (codes "chrome os") os_name
          || contains (codes "x11") raw
      then codes "desktop"
      else []

  -- the three `if client.… != nil` blocks, each on the fields set before
  unfoldable pub add_browser : Bytes → Option Browser → Details → Details
  unfolding derive_browser_engine
  add_browser raw none d = d
  add_browser raw (some b) d = record d {
    browser_family = trim_space b.family;
    browser_version = trim_space b.version;
    browser_major = trim_space b.major;
    browser_engine = derive_browser_engine (trim_space b.family) raw;
  }

  unfoldable pub add_system : Option System → Details → Details
  unfolding trim_space
  add_system none d = d
  add_system (some s) d = record d {
    os_family = trim_space s.family;
    os_version = trim_space s.version;
  }

  unfoldable pub add_device : Bytes → Option Device → Details → Details
  unfolding derive_device_type
  add_device raw none d = d
  add_device raw (some v) d = record d {
    device_family = trim_space v.family;
    device_brand = trim_space v.brand;
    device_model = trim_space v.model;
    device_type = derive_device_type (trim_space v.family) d.os_family d.browser_family raw;
  }

  -- `applyUserAgentDetails` of an event with this user agent
  unfoldable pub user_agent_details : (Bytes → Option Client) → Bytes → Details
  unfolding add_browser add_system add_device
  user_agent_details parse user_agent =
      let raw = trim_space user_agent in
      let details : Details = elim (parse raw) [
        | none ↦ no_details
        | some c ↦
            add_device raw c.device (add_system c.os (add_browser raw c.user_agent no_details))
      ] in
      if is_empty raw then no_details else details
