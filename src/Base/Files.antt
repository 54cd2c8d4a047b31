-- ===== src/Base/Files.antt =====
-- The file system, which the source reaches through Go's package os. `W` is the state of the world;
-- an error is `none` or `false`, since the source only passes its text on.
use Prim.Native.Nat.{ℕ}
use Prim.Native.String.{String}
use mathlib.Core.Path.{◌≡◌}
use mathlib.Core.Bool.{Bool, true, false}
use mathlib.Core.Option.{Option, some}
use mathlib.Core.List.{List}
use sentra_lab.Base.Tests.{str_eq}

pub record FileSystem (W : Type 0) : Type 0 where
  -- os.IsNotExist of the error of os.Stat
  pub is_missing : String → W → Bool
  -- os.Stat: the size of a file
  pub size : String → W → Option ℕ
  pub read : String → W → Option String
  pub write : String → String → W → Bool × W
  pub remove : String → W → Bool × W
  pub make_all : String → W → Bool × W
  -- os.ReadDir: the names, and which of them are directories
  pub read_dir : String → W → Option (List (String × Bool))

-- What is relied on of the file system: a write that succeeds is read back, and neither a
-- write nor a removal touches another path.
pub record IsFileSystem {W : Type 0} (fs : FileSystem W) : Type 0 where
  pub read-write :
      (path content : String) (w : W)
      → (fs.write path content w).0 ≡ true
      → fs.read path (fs.write path content w).1 ≡ some content
  pub read-write_apart :
      (path other content : String) (w : W)
      → str_eq path other ≡ false
      → fs.read other (fs.write path content w).1 ≡ fs.read other w
  pub read-remove_apart :
      (path other : String) (w : W)
      → str_eq path other ≡ false
      → fs.read other (fs.remove path w).1 ≡ fs.read other w
