-- ===== src/Auth/Headers.antt =====
-- The crates `http` and `tonic`, as src/server/auth.rs uses them: header maps, and header values,
-- which are made from text and read as text, and both may fail. They are a parameter; the law is that
-- a value that was inserted is found, and that other names keep their values.
use seabird_core.Prelude.{Text, ◌≡◌, ◌≢◌, Option, some}

pub record HeaderMap : Type 1 where
  pub Headers : Type 0
  pub HeaderValue : Type 0
  pub header : Text → Headers → Option HeaderValue
  pub insert_header : Text → HeaderValue → Headers → Headers
  pub to_str : HeaderValue → Option Text
  pub from_str : Text → Option HeaderValue

pub record Laws (m : HeaderMap) : Type 0 where
  pub header-insert_self :
      (k : Text) (v : m.HeaderValue) (h : m.Headers) → m.header k (m.insert_header k v h) ≡ some v
  pub header-insert_ne :
      (j k : Text) (v : m.HeaderValue) (h : m.Headers)
      → j ≢ k
      → m.header j (m.insert_header k v h) ≡ m.header j h
