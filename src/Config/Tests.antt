-- ===== src/Config/Tests.antt =====
-- `validate` at a concrete configuration.
use fwknox.Base.{◌≡◌, ◌↔◌, ok}
use fwknox.Config.Sample.{config}
use fwknox.Config.Validate.{validate}
use fwknox.Config.Valid.{IsValid, validate-IsValid}

validate-IsValid_example : (validate config ≡ ok tt) ↔ IsValid config
validate-IsValid_example = validate-IsValid config
