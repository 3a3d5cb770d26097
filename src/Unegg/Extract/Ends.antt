-- ===== src/Unegg/Extract/Ends.antt =====
-- extract.rs: an extraction returns.
use zip_mania.Prelude.{ℕ, Bool, List, All}
use zip_mania.Paths.Under.{Components}
use zip_mania.Unegg.Codec.Inflate.{Inflated}
use zip_mania.Unegg.Codec.Inflate.Ends.{Consumes}
use zip_mania.Unegg.Items.{Item}
use zip_mania.Unegg.Items.Reading.Ends.{Enough}
use zip_mania.Unegg.Extract.{System, Options}

module _ {W S : Type 0} (sys : System W) (inflate : S → List ℕ → Inflated S) (c : Consumes inflate)
    (start : S) (fuel : ℕ) (for_windows : Bool) (current_dir : Components) (bytes : List ℕ)
    (opts : Options) where
  -- Rounds enough for each block of an entry.
  abbrev pub EnoughFor : Item → Type 0
  EnoughFor i = All (Enough fuel bytes 0) i.blocks
