-- ===== src/Events/Languages/Examples.antt =====
-- A header with a language that stands twice.
use formation_web_analytics.Base.{Bytes, codes}
use formation_web_analytics.Go.Strings.{trim_space, split}
use formation_web_analytics.Events.Languages.{accept_language_details}
use formation_web_analytics.Events.Languages.Tags.{IsDescribed, accept_language_details-IsDescribed}
use formation_web_analytics.Samples.{platform}

abbrev header : Bytes
header = codes "EN-us, de;q=0.8, en-US;q=0.5, *"

accept_language_details-IsDescribed_example :
    IsDescribed platform (split b',' (trim_space header)) (accept_language_details platform header)
accept_language_details-IsDescribed_example = accept_language_details-IsDescribed platform header
