-- ===== src/Types/Dynamic.antt =====
-- The dynamic values of `map[string]any`: what JSON decoding and Go code put there.
use agent_exec_engine.Prelude.{
  ℕ, zero, suc, ◌/◌, ◌^◌, ◌%◌, String, Bool, false, not, ◌&&◌, if◌then◌else◌, ltb, eqb,
}
use agent_exec_engine.Prelude.Int.{ℤ, pos, negsuc}

-- A float64. Each finite one is ± mantissa / 2 ^ scale.
pub data Float64 : Type 0 where
  finite : Bool → ℕ → ℕ → Float64
  infinite : Bool → Float64
  nan : Float64

-- math.Mod(v, 1) == 0
abbrev pub is_integral : Float64 → Bool
is_integral (finite negative mantissa scale) = eqb (mantissa % 2 ^ scale) 0
is_integral (infinite negative) = false
is_integral nan = false

-- `signed` stands for int, int8 to int64, and `unsigned` for uint, uint8 to uint64.
mutual
  pub data Value : Type 0 where
    null : Value
    text : String → Value
    boolean : Bool → Value
    signed : ℤ → Value
    unsigned : ℕ → Value
    float : Float64 → Value
    array : Items → Value
    object : Fields → Value

  pub data Items : Type 0 where
    nil : Items
    cons : Value → Items → Items

  pub data Fields : Type 0 where
    end : Fields
    field : String → Value → Fields → Fields

-- Go's conversion to int drops the fraction; where the number does not fit, what it gives is the
-- machine's, the first argument.
abbrev pub to_int : (Float64 → ℤ) → Float64 → ℤ
to_int out_of_range (finite negative mantissa scale) =
    let whole = mantissa / 2 ^ scale in
    if not (ltb whole (2 ^ 63))
    then out_of_range (finite negative mantissa scale)
    else if negative && ltb 0 whole
    then elim whole [ zero ↦ pos 0 | suc n ↦ negsuc n ]
    else pos whole
to_int out_of_range f = out_of_range f
