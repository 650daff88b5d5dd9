-- ===== src/Store/Opening.antt =====
-- reference/bass/store.py, `open_store`: which store a deployment's setting selects.
use bass_platform.Base.{String, ◌||◌, if◌then◌else◌}
use bass_platform.Text.{starts_with}

-- What `open_store` opens.
pub data Backend : Type 0 where
  postgres sqlite : String → Backend

unfoldable pub open_store : String → Backend
open_store url_or_path =
    if starts_with "postgres://" url_or_path || starts_with "postgresql://" url_or_path
    then Backend.postgres url_or_path
    else Backend.sqlite url_or_path
