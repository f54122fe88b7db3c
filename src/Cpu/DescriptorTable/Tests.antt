-- ===== src/Cpu/DescriptorTable/Tests.antt =====
-- A segment of 4 GiB in a table of one entry.
use lamb_os.Cpu.DescriptorTable.{GdtEntry, Descriptor}

abbrev blank : Descriptor
blank = record {
  byte0 = 0;
  byte1 = 0;
  byte2 = 0;
  byte3 = 0;
  byte4 = 0;
  byte5 = 0;
  byte6 = 0;
  byte7 = 0;
}

abbrev code : GdtEntry
code = record { base = 0x12345678; limit = 0xFFFFFFFF; type = 0x9A }
