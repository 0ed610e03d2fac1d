-- ===== src/Model/Values.antt =====
-- JSON documents as `encoding/json` decodes them into `any`. A `json.RawMessage` is the document
-- it holds, up to insignificant white space; or it is empty, white space alone (`blank`), or no
-- JSON document.
use be_better.Prelude.{ℤ, Bool, String}

mutual
  pub data Json : Type 0 where
    null : Json
    boolean : Bool → Json
    -- an integral number, and one with a fraction
    integer : ℤ → Json
    fractional : String → Json
    text : String → Json
    array : Items → Json
    object : Fields → Json

  pub data Items : Type 0 where
    nil : Items
    cons : Json → Items → Items

  pub data Fields : Type 0 where
    end : Fields
    field : String → Json → Fields → Fields

pub data RawMessage : Type 0 where
  empty blank malformed : RawMessage
  document : Json → RawMessage
