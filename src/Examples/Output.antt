-- ===== src/Examples/Output.antt =====
-- What is printed and echoed.
use biglab.Base.{◌^◌, ◌≤◌, ◌<◌, ◌≡◌, true, false, arith, length}
use biglab.Print.{printint}
use biglab.Print.Digits.{reading, printint-reads, printint-fits}
use biglab.Memory.{strncmp}
use biglab.Memory.Strings.{SamePrefix, strncmp-SamePrefix}
use biglab.Examples.{blank}

printint-reads_example :
    (42 < 2 ^ 32 → reading 16 0 (printint 42 16 false) ≡ 42)
    × (42 < 2 ^ 31 → reading 10 0 (printint 42 10 true) ≡ 42)
printint-reads_example = printint-reads 42

printint-fits_example : (length (printint 255 16 false) ≤ 16) × (length (printint 255 10 true) ≤ 16)
printint-fits_example = printint-fits 255 (omega arith)

strncmp-SamePrefix_example :
    (SamePrefix blank 16 32 4 → (strncmp blank 16 32 4).0 ≡ (strncmp blank 16 32 4).1)
    × ((strncmp blank 16 32 4).0 ≡ (strncmp blank 16 32 4).1 → SamePrefix blank 16 32 4)
strncmp-SamePrefix_example = strncmp-SamePrefix blank 4 16 32
